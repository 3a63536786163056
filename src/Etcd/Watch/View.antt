-- ===== src/Etcd/Watch/View.antt =====
-- What a receiver of the events of Watch knows, beside what Discover lists.
use dilu_go_kit.Base.{
  ◌≡◌, refl, sym, ap, ◌∙◌, List, [], ◌∷◌, ◌++◌, map, Option, none, some, All, subst,
}
use dilu_go_kit.Base.Text.{Text}
use dilu_go_kit.Base.Text.Sorting.{IsDistinct}
use dilu_go_kit.Base.Dict.{lookup, keys}
use dilu_go_kit.Registry.{index_from}
use dilu_go_kit.Registry.Services.{last_with, lookup-index_from}
use dilu_go_kit.Registry.Events.{
  Event, put, delete, Known, put_all, receive_all, receive_all-append,
}
use dilu_go_kit.Etcd.{Library, Kvs, services_of}
use dilu_go_kit.Etcd.Store.{service_at, service_at_lem}
use dilu_go_kit.Etcd.Watch.{
  EtcdEvent, Session, delete_missing, updated, told, etcd_event, forward, follow, session, watch,
}
use dilu_go_kit.Etcd.Watch.Deletions.{
  Keyed, receive_all-Keyed, index_from-Keyed, current_view, or_else-none,
}
use dilu_go_kit.Etcd.Watch.Changes.{
  Change, event_of, change, change_all, Readable, change_all-IsDistinct, receive_event, event_view,
}

-- A snapshot, and the responses that follow it, `none` for one that is an error.
pub record Period : Type 0 where
  pub snapshot : Kvs
  pub responses : List (Option (List Change))

abbrev pub response_of : Option (List Change) → Option (List EtcdEvent)
response_of none = none
response_of (some cs) = some (map event_of cs)

abbrev pub session_of : Period → Session
session_of p = record { snapshot = p.snapshot; responses = map response_of p.responses }

-- The changes of the responses up to the error.
unfoldable pub delivered : List (Option (List Change)) → List Change
delivered [] = []
delivered (none ∷ rs) = []
delivered (some cs ∷ rs) = cs ++ delivered rs

-- The store after the last change that was delivered.
unfoldable pub store_after : Kvs → List Period → Kvs
unfolding delivered change_all
store_after store [] = store
store_after store (p ∷ ps) = store_after (change_all (delivered p.responses) p.snapshot) ps

abbrev pub IsReadable : Library → (prefix name : Text) → Period → Type 0
IsReadable lib prefix name p =
    IsDistinct (keys p.snapshot) × All (Readable lib prefix name) (delivered p.responses)

change_all-append :
    (xs ys : List Change) (store : Kvs)
    → change_all (xs ++ ys) store ≡ change_all ys (change_all xs store)
unfolding change_all
change_all-append [] ys store = refl
change_all-append (x ∷ xs) ys store = change_all-append xs ys (change x store)

All-split {ℓ κ} :
    {A : Type ℓ} (P : A → Type κ) (xs ys : List A) → All P (xs ++ ys) → All P xs × All P ys
All-split P [] ys h = (tt, h)
All-split P (x ∷ xs) ys (h, hs) = let (a, b) = All-split P xs ys hs in ((h, a), b)

store_after-IsDistinct :
    (lib : Library) (prefix name : Text) (ps : List Period) (store : Kvs)
    → IsDistinct (keys store)
    → All (IsReadable lib prefix name) ps
    → IsDistinct (keys (store_after store ps))
unfolding store_after
store_after-IsDistinct lib prefix name [] store d h = d
store_after-IsDistinct lib prefix name (p ∷ ps) store d ((e, r), h) =
    store_after-IsDistinct lib prefix name ps (change_all (delivered p.responses) p.snapshot)
      (change_all-IsDistinct (delivered p.responses) p.snapshot e) h

module _ (lib : Library) (prefix name : Text) where
  -- The events of one response, as the receiver takes them one by one.
  told_lem :
      (o : Option Event) (rest : List Event × Known) (view : Known)
      → receive_all (told lib prefix name o rest).0 view ≡ receive_all rest.0 (receive_event o view)
  unfolding receive_all receive_event
  told_lem none (es, last) view = refl
  told_lem (some e) (es, last) view = refl

  forward_view :
      (j : Text) (cs : List Change) (known view : Known) (store : Kvs)
      → All (Readable lib prefix name) cs
      → lookup j view ≡ service_at lib prefix name j store
      → lookup j (receive_all (forward lib prefix name known (map event_of cs)).0 view)
        ≡ service_at lib prefix name j (change_all cs store)
  unfolding forward change_all receive_all
  forward_view j [] known view store readable agree = agree
  forward_view j (c ∷ cs) known view store (r, rs) agree =
      let o = etcd_event lib prefix name (event_of c) in
      let known' = updated lib prefix name o known in
      ap (lookup j) (told_lem o (forward lib prefix name known' (map event_of cs)) view)
      ∙ forward_view j cs known' (receive_event o view) (change c store) rs
          (event_view lib prefix name j c view store r agree)

  -- What Watch knows moves like the view of a receiver.
  updated_lem :
      (o : Option Event) (known : Known) → updated lib prefix name o known ≡ receive_event o known
  unfolding receive_event
  updated_lem none known = refl
  updated_lem (some (put svc)) known = refl
  updated_lem (some (delete svc)) known = refl

  told_known :
      (o : Option Event) (rest : List Event × Known) → (told lib prefix name o rest).1 ≡ rest.1
  told_known none (es, last) = refl
  told_known (some e) (es, last) = refl

  forward_known :
      (known : Known) (evs : List EtcdEvent)
      → (forward lib prefix name known evs).1
        ≡ receive_all (forward lib prefix name known evs).0 known
  unfolding forward receive_all
  forward_known known [] = refl
  forward_known known (ev ∷ evs) =
      let o = etcd_event lib prefix name ev in
      let known' = updated lib prefix name o known in
      let rest = forward lib prefix name known' evs in
      told_known o rest
      ∙ forward_known known' evs
      ∙ ap (receive_all rest.0) (updated_lem o known)
      ∙ sym (told_lem o rest known)

  follow_known :
      (known : Known) (rs : List (Option (List EtcdEvent)))
      → (follow lib prefix name known rs).1 ≡ receive_all (follow lib prefix name known rs).0 known
  unfolding follow receive_all
  follow_known known [] = refl
  follow_known known (none ∷ rs) = refl
  follow_known known (some evs ∷ rs) =
      let (events, known') = forward lib prefix name known evs in
      let (later, last) = follow lib prefix name known' rs in
      follow_known known' rs
      ∙ ap (receive_all later) (forward_known known evs)
      ∙ sym (receive_all-append events later known)

  follow_view :
      (j : Text) (rs : List (Option (List Change))) (known view : Known) (store : Kvs)
      → All (Readable lib prefix name) (delivered rs)
      → lookup j view ≡ service_at lib prefix name j store
      → lookup j (receive_all (follow lib prefix name known (map response_of rs)).0 view)
        ≡ service_at lib prefix name j (change_all (delivered rs) store)
  unfolding follow delivered change_all receive_all
  follow_view j [] known view store readable agree = agree
  follow_view j (none ∷ rs) known view store readable agree = agree
  follow_view j (some cs ∷ rs) known view store readable agree =
      let (events, known') = forward lib prefix name known (map event_of cs) in
      let later = (follow lib prefix name known' (map response_of rs)).0 in
      let (r, rest) = All-split (Readable lib prefix name) cs (delivered rs) readable in
      ap (lookup j) (receive_all-append events later view)
      ∙ follow_view j rs known' (receive_all events view) (change_all cs store) rest
          (forward_view j cs known view store r agree)
      ∙ ap (service_at lib prefix name j) (sym (change_all-append cs (delivered rs) store))

  session_view :
      (j : Text) (p : Period) (known view : Known)
      → IsReadable lib prefix name p
      → Keyed known
      → lookup j view ≡ lookup j known
      → lookup j (receive_all (session lib prefix name known (session_of p)).0 view)
        ≡ service_at lib prefix name j (change_all (delivered p.responses) p.snapshot)
  session_view j p known view (d, readable) keyed agree =
      let svcs = services_of lib prefix name p.snapshot in
      let current = index_from [] svcs in
      let missing = delete_missing known current in
      let later = (follow lib prefix name current (map response_of p.responses)).0 in
      ap (lookup j) (
        receive_all-append (put_all svcs) (missing ++ later) view
        ∙ receive_all-append missing later (receive_all (put_all svcs) view))
      ∙ follow_view j p.responses current (receive_all missing (receive_all (put_all svcs) view))
          p.snapshot readable
          (current_view j svcs known view keyed agree
            ∙ sym (service_at_lem lib prefix name j p.snapshot d))

  session_known :
      (j : Text) (p : Period) (known : Known)
      → IsReadable lib prefix name p
      → lookup j (session lib prefix name known (session_of p)).1
        ≡ service_at lib prefix name j (change_all (delivered p.responses) p.snapshot)
  unfolding lookup
  session_known j p known (d, readable) =
      let svcs = services_of lib prefix name p.snapshot in
      let current = index_from [] svcs in
      ap (lookup j) (follow_known current (map response_of p.responses))
      ∙ follow_view j p.responses current current p.snapshot readable (
          lookup-index_from j [] svcs
          ∙ or_else-none (last_with j svcs)
          ∙ sym (service_at_lem lib prefix name j p.snapshot d))

  session-Keyed :
      (p : Period) (known : Known) → Keyed (session lib prefix name known (session_of p)).1
  session-Keyed p known =
      let current = index_from [] (services_of lib prefix name p.snapshot) in
      let later = (follow lib prefix name current (map response_of p.responses)).0 in
      subst Keyed (sym (follow_known current (map response_of p.responses))) (
        receive_all-Keyed later current
          (index_from-Keyed (services_of lib prefix name p.snapshot) [] tt))

  sessions_view :
      (j : Text) (ps : List Period) (known view : Known) (store : Kvs)
      → All (IsReadable lib prefix name) ps
      → Keyed known
      → lookup j known ≡ service_at lib prefix name j store
      → lookup j view ≡ service_at lib prefix name j store
      → lookup j (receive_all (watch lib prefix name known (map session_of ps)).0 view)
        ≡ service_at lib prefix name j (store_after store ps)
  unfolding watch store_after receive_all
  sessions_view j [] known view store readable keyed knows agree = agree
  sessions_view j (p ∷ ps) known view store (r, rs) keyed knows agree =
      let (events, known') = session lib prefix name known (session_of p) in
      let later = (watch lib prefix name known' (map session_of ps)).0 in
      ap (lookup j) (receive_all-append events later view)
      ∙ sessions_view j ps known' (receive_all events view)
          (change_all (delivered p.responses) p.snapshot) rs (session-Keyed p known)
          (session_known j p known r) (session_view j p known view r keyed (agree ∙ sym knows))

  -- etcd's Watch and Discover agree. A receiver of the events of Watch keeps the services by their
  -- identifiers. After any number of sessions, each with its snapshot and with the changes that were
  -- told before a response failed or the channel ended, the receiver holds, under each identifier,
  -- what Discover would list for a store that is the last snapshot with those changes made in it,
  -- and nothing else. Keys are distinct in a snapshot, and what is written under a key of the service is
  -- a service that Discover would list.
  pub watch_discovers :
      (ps : List Period)
      → All (IsReadable lib prefix name) ps
      → (j : Text)
      → lookup j (receive_all (watch lib prefix name [] (map session_of ps)).0 [])
        ≡ last_with j (services_of lib prefix name (store_after [] ps))
  unfolding lookup service_at
  watch_discovers ps readable j =
      sessions_view j ps [] [] [] readable tt refl refl
      ∙ service_at_lem lib prefix name j (store_after [] ps)
          (store_after-IsDistinct lib prefix name ps [] tt readable)
