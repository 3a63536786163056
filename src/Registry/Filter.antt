-- ===== src/Registry/Filter.antt =====
-- The service filters of registry/registry.go; a nil filter is `none`.
use dilu_go_kit.Base.{
  List, [], ◌∷◌, Option, none, some, Bool, true, false, ◌&&◌, ◌≡◌, refl, if◌then◌else◌, select, all,
  ap, sym, ◌∙◌,
}
use mathlib.Core.Path.{fun_ext}
use dilu_go_kit.Base.Text.{Text, beq, codes, trim_space}
use dilu_go_kit.Base.Dict.{lookup}
use dilu_go_kit.Registry.{Service}

abbrev pub Filter : Type 0
Filter = Option (Service → Bool)

-- A lookup in a map of strings: a missing key, or a nil map, reads as the empty string.
abbrev pub or_empty : Option Text → Text
or_empty none = []
or_empty (some v) = v

abbrev pub meta_value : Text → Option (List (Text × Text)) → Text
meta_value k none = []
meta_value k (some m) = or_empty (lookup k m)

-- The version that VersionFilter compares, with the metadata as its fallback.
unfoldable pub effective_version : Service → Text
effective_version svc =
    let got = trim_space svc.version in
    if beq got [] then trim_space (meta_value (codes "version") svc.meta) else got

unfoldable pub version_filter : Text → Filter
unfolding effective_version
version_filter version =
    let want = trim_space version in
    if beq want [] then none else some (λ svc. beq (effective_version svc) want)

abbrev pub has_entry : Option (List (Text × Text)) → Text × Text → Bool
has_entry none (k, v) = false
has_entry (some m) (k, v) = beq (or_empty (lookup k m)) v

-- MetadataFilter; the copy of the map needs no model.
unfoldable pub metadata_filter : List (Text × Text) → Filter
metadata_filter [] = none
metadata_filter (e ∷ es) = some (λ svc. all (has_entry svc.meta) (e ∷ es))

abbrev pub active : List Filter → List (Service → Bool)
active [] = []
active (none ∷ fs) = active fs
active (some f ∷ fs) = f ∷ active fs

unfoldable pub and_active : List (Service → Bool) → Filter
and_active [] = none
and_active (f ∷ fs) = some (λ svc. all (λ g. g svc) (f ∷ fs))

-- AndFilters
unfoldable pub and_filters : List Filter → Filter
unfolding and_active
and_filters fs = and_active (active fs)

-- filterServices
unfoldable pub filter_services : List Service → Filter → List Service
filter_services ss none = ss
filter_services ss (some f) = select f ss

-- Whether a filter lets a service through.
abbrev pub accepts : Filter → Service → Bool
accepts none svc = true
accepts (some f) svc = f svc

abbrev pub all_accept : List Filter → Service → Bool
all_accept [] svc = true
all_accept (f ∷ fs) svc = accepts f svc && all_accept fs svc

active-accept :
    (fs : List Filter) (svc : Service) → all (λ g. g svc) (active fs) ≡ all_accept fs svc
active-accept [] svc = refl
active-accept (none ∷ fs) svc = active-accept fs svc
active-accept (some f ∷ fs) svc = rw (active-accept fs svc)

accepts-and_active :
    (gs : List (Service → Bool)) (svc : Service) → accepts (and_active gs) svc ≡ all (λ g. g svc) gs
unfolding and_active
accepts-and_active [] svc = refl
accepts-and_active (g ∷ gs) svc = refl

select_all {ℓ} : {A : Type ℓ} (ss : List A) → select (λ s. true) ss ≡ ss
select_all [] = refl
select_all (s ∷ ss) = ap (◌∷◌ s) (select_all ss)

filter_services-accepts :
    (ss : List Service) (f : Filter) → filter_services ss f ≡ select (accepts f) ss
unfolding filter_services
filter_services-accepts ss none = sym (select_all ss)
filter_services-accepts ss (some f) = refl

-- Filtering with AndFilters keeps exactly the services that every filter accepts, in their order; a
-- nil filter accepts every service, alone or in the list.
pub filter-and_filters :
    (fs : List Filter) (ss : List Service)
    → filter_services ss (and_filters fs) ≡ select (all_accept fs) ss
unfolding filter_services and_filters
filter-and_filters fs ss =
    filter_services-accepts ss (and_filters fs)
    ∙ ap (λ test. select test ss)
        (fun_ext (λ svc. accepts-and_active (active fs) svc ∙ active-accept fs svc))
