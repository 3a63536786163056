-- ===== src/Boot/Remote/Settings/Search.antt =====
-- What the search finds.
use dilu_go_kit.Base.{
  ◌≡◌, refl, sym, ap, ◌∙◌, inl, inr, ◌⊎◌, List, [], ◌∷◌, ◌++◌, true, false, not, arith, if_cases,
}
use mathlib.Core.List.{append_assoc}
use dilu_go_kit.Base.Text.{Text, beq, beq_iff}
use dilu_go_kit.Boot.Remote.Settings.{
  Settings, end, value, section, lower, is_sensitive_config_path, join_dots, walk,
  sensitive_remote_path,
}

-- A value stands at a path, which has the keys in lower case.
pub data Holds : Settings → List Text → Text → Type 0 where
  here : {k text : Text} {rest : Settings} → Holds (value k text rest) (lower k ∷ []) text
  later :
      {k w : Text} {rest : Settings} {path : List Text} {text : Text}
      → Holds rest path text
      → Holds (value k w rest) path text
  inside :
      {k : Text} {nested rest : Settings} {path : List Text} {text : Text}
      → Holds nested path text
      → Holds (section k nested rest) (lower k ∷ path) text
  beside :
      {k : Text} {nested rest : Settings} {path : List Text} {text : Text}
      → Holds rest path text
      → Holds (section k nested rest) path text

-- A path that is sensitive has a dot, so that its text is not empty.
join_dots-cons :
    (path : List Text) → is_sensitive_config_path path ≡ true → beq (join_dots path) [] ≡ false
unfolding is_sensitive_config_path beq
join_dots-cons [] h = cc
join_dots-cons (a ∷ []) h = ground arith
join_dots-cons ([] ∷ b ∷ rest) h = refl
join_dots-cons ((c ∷ a) ∷ b ∷ rest) h = refl

value_nothing :
    (k text : Text) (rest : Settings) (prefix : List Text)
    → walk (value k text rest) prefix ≡ []
    → (is_sensitive_config_path (prefix ++ (lower k ∷ [])) ≡ true → text ≡ [])
      × (walk rest prefix ≡ [])
unfolding walk
value_nothing k text rest prefix h = ground (
  arith,
  beq_iff text [],
  beq_iff (join_dots (prefix ++ (lower k ∷ []))) [],
  join_dots-cons (prefix ++ (lower k ∷ [])),
)

section_nothing :
    (k : Text) (nested rest : Settings) (prefix : List Text)
    → walk (section k nested rest) prefix ≡ []
    → (walk nested (prefix ++ (lower k ∷ [])) ≡ []) × (walk rest prefix ≡ [])
unfolding walk
section_nothing k nested rest prefix h =
    ground (arith, beq_iff (walk nested (prefix ++ (lower k ∷ []))) [])

-- A search that comes to nothing has met no sensitive value that is set.
walk_nothing :
    (s : Settings) (prefix : List Text) {path : List Text} {text : Text}
    → Holds s path text
    → walk s prefix ≡ []
    → is_sensitive_config_path (prefix ++ path) ≡ true
    → text ≡ []
walk_nothing end prefix at h sensitive = elim at [ ]
walk_nothing (value k text rest) prefix here h sensitive =
    (value_nothing k text rest prefix h).0 sensitive
walk_nothing (value k w rest) prefix (later at) h sensitive =
    walk_nothing rest prefix at (value_nothing k w rest prefix h).1 sensitive
walk_nothing (section k nested rest) prefix (inside {path = path} at) h sensitive =
    walk_nothing nested (prefix ++ (lower k ∷ [])) at (section_nothing k nested rest prefix h).0
      (ap is_sensitive_config_path (append_assoc prefix (lower k ∷ []) path) ∙ sensitive)
walk_nothing (section k nested rest) prefix (beside at) h sensitive =
    walk_nothing rest prefix at (section_nothing k nested rest prefix h).1 sensitive

-- What a search finds is the path of a sensitive value that is set.
abbrev pub Found : Settings → List Text → Text → Type 0
Found s prefix found =
    (path : List Text) × (text : Text) × Holds s path text
    × (is_sensitive_config_path (prefix ++ path) ≡ true)
    × (beq text [] ≡ false)
    × (found ≡ join_dots (prefix ++ path))

-- Nothing, or what stands in a part of the settings.
widen :
    {s part : Settings} (prefix : List Text) {found : Text}
    → ((path : List Text) (text : Text) → Holds part path text → Holds s path text)
    → (found ≡ []) ⊎ Found part prefix found
    → (found ≡ []) ⊎ Found s prefix found
widen prefix more (inl none_found) = inl none_found
widen prefix more (inr (path, text, at, sensitive, is_set, e)) =
    inr (path, text, more path text at, sensitive, is_set, e)

enter :
    (k : Text) (nested rest : Settings) (prefix : List Text) (found : Text)
    → not (beq found []) ≡ true
    → (found ≡ []) ⊎ Found nested (prefix ++ (lower k ∷ [])) found
    → Found (section k nested rest) prefix found
enter k nested rest prefix found h (inl none_found) = absurd (ground (arith, beq_iff found []))
enter k nested rest prefix found h (inr (path, text, at, sensitive, is_set, e)) =
    let same = append_assoc prefix (lower k ∷ []) path in
    (
      lower k ∷ path,
      text,
      inside at,
      ap is_sensitive_config_path (sym same) ∙ sensitive,
      is_set,
      e ∙ ap join_dots same,
    )

walk_found :
    (s : Settings) (prefix : List Text) → (walk s prefix ≡ []) ⊎ Found s prefix (walk s prefix)
unfolding walk
walk_found end prefix = inl refl
walk_found (value k text rest) prefix =
    if_cases {A = Text} (λ t. (t ≡ []) ⊎ Found (value k text rest) prefix t) _
      (λ h. inr (lower k ∷ [], text, here, ground arith, ground arith, refl))
      (λ h. widen prefix (λ p t at. later at) (walk_found rest prefix))
walk_found (section k nested rest) prefix =
    let deeper = prefix ++ (lower k ∷ []) in
    if_cases {A = Text} (λ t. (t ≡ []) ⊎ Found (section k nested rest) prefix t) _
      (λ h. inr (enter k nested rest prefix (walk nested deeper) h (walk_found nested deeper)))
      (λ h. widen prefix (λ p t at. beside at) (walk_found rest prefix))

-- A search of the whole that returns "".
pub clean_search :
    (s : Settings)
    → sensitive_remote_path s ≡ []
    → (path : List Text) (text : Text) → Holds s path text
    → is_sensitive_config_path path ≡ true
    → text ≡ []
unfolding sensitive_remote_path
clean_search s h path text at sensitive = walk_nothing s [] at h sensitive

-- sensitiveRemotePath, on settings of any depth and in whatever order `range` visits them: either it
-- returns "" and no value at a path that isSensitiveConfigPath names is set, anywhere in the
-- settings; or it returns the dotted path of such a value that is set.
pub sensitive_search :
    (s : Settings)
    → ((sensitive_remote_path s ≡ [])
        × ((path : List Text) (text : Text)
            → Holds s path text
            → is_sensitive_config_path path ≡ true
            → text ≡ []))
      ⊎ Found s [] (sensitive_remote_path s)
unfolding sensitive_remote_path
sensitive_search s = elim (walk_found s []) [
  | inl h ↦ inl (h, clean_search s h)
  | inr found ↦ inr found
]
