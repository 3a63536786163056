-- ===== src/Registry/Events.antt =====
-- registry/registry.go: the events of a watch, and a receiver that keeps the services by their
-- identifiers.
use dilu_go_kit.Base.{◌≡◌, refl, List, [], ◌∷◌, ◌++◌}
use dilu_go_kit.Base.Text.{Text}
use dilu_go_kit.Base.Dict.{insert, remove}
use dilu_go_kit.Registry.{Service, index_from}

pub data Event : Type 0 where
  put : Service → Event
  delete : Service → Event

-- map[string]Service
abbrev pub Known : Type 0
Known = List (Text × Service)

abbrev pub put_all : List Service → List Event
put_all [] = []
put_all (svc ∷ svcs) = put svc ∷ put_all svcs

abbrev pub receive : Event → Known → Known
receive (put svc) view = insert svc.instance_id svc view
receive (delete svc) view = remove svc.instance_id view

unfoldable pub receive_all : List Event → Known → Known
receive_all [] view = view
receive_all (e ∷ es) view = receive_all es (receive e view)

pub receive_all-append :
    (xs ys : List Event) (view : Known)
    → receive_all (xs ++ ys) view ≡ receive_all ys (receive_all xs view)
unfolding receive_all
receive_all-append [] ys view = refl
receive_all-append (x ∷ xs) ys view = receive_all-append xs ys (receive x view)

pub receive_all-put_all :
    (svcs : List Service) (view : Known) → receive_all (put_all svcs) view ≡ index_from view svcs
unfolding receive_all index_from
receive_all-put_all [] view = refl
receive_all-put_all (s ∷ ss) view = receive_all-put_all ss (insert s.instance_id s view)
