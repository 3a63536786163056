-- ===== src/Clientx/Transport.antt =====
-- An application error that crosses a gRPC call: apperr.GRPCStatus on the server, then
-- clientx.MapGRPCError on the client.
use dilu_go_kit.Base.{
  ℕ, ◌/◌, Bool, true, false, ◌||◌, ◌≡◌, ◌≢◌, ◌⊎◌, inl, inr, refl, sym, ap, ◌∙◌, arith, ◌==◌,
  Bool-cases, if◌then◌else◌,
}
use dilu_go_kit.Base.Int.{ℤ, pos, negsuc}
use dilu_go_kit.Base.Text.{Text}
use dilu_go_kit.Errors.{Error, nil, app, as_app, as_client, circuit_open, is_nil}
use dilu_go_kit.Resp.{http_status_for_code}
use dilu_go_kit.Status.{Code, Status, internal}
use dilu_go_kit.Status
use dilu_go_kit.Apperr.{grpc_status, grpc_code, code_of, internal_message}
use dilu_go_kit.Clientx.Grpc
use dilu_go_kit.Clientx.Grpc.{map_grpc_error, map_code}

-- The code families that both mappings name.
abbrev pub is_standard : ℤ → Bool
is_standard (pos n) =
    let family = n / 100 in
    family == 400
    || family == 401
    || family == 403
    || family == 404
    || family == 409
    || family == 429
    || family == 500
is_standard (negsuc n) = false

nil-cases : (e : Error) → (e ≡ nil) ⊎ (is_nil e ≡ false)
nil-cases nil = inl refl
nil-cases _ = inr refl

code_of-map_code :
    (c : Code) (e : Error) → Grpc.code_of (map_code c e) ≡ Grpc.code_of (map_code c nil)
unfolding map_code Grpc.code_of as_client
code_of-map_code Status.ok e = refl
code_of-map_code _ e = refl

-- The client's code for a status code that the server sends.
abbrev received : Code → ℕ
received c = http_status_for_code (Grpc.code_of (map_code c nil))

make-ne-nil : (s : Status) (c : Code) (m : Text) → c ≢ Status.ok → is_nil (s.make c m) ≡ false
make-ne-nil s c m h = elim (nil-cases (s.make c m)) [
  | inl e ↦ absurd (h (sym (s.code_of-make c m) ∙ ap s.code_of e ∙ s.code_of-nil))
  | inr e ↦ e
]

-- The client's code depends on the status code alone.
code_of-map_grpc_error :
    (s : Status) (c : Code) (m : Text)
    → c ≢ Status.ok
    → Grpc.code_of (map_grpc_error s (s.make c m)) ≡ Grpc.code_of (map_code c nil)
unfolding map_grpc_error Grpc.code_of
code_of-map_grpc_error s c m h =
    rw (make-ne-nil s c m h, s.is-make c m circuit_open, s.code_of-make c m)
      (code_of-map_code c (s.make c m))

sent :
    (s : Status) (c : Code) (m : Text)
    → c ≢ Status.ok
    → http_status_for_code (Grpc.code_of (map_grpc_error s (s.make c m))) ≡ received c
sent s c m h = ap http_status_for_code (code_of-map_grpc_error s c m h)

grpc_code-ne-ok : (code : ℤ) → grpc_code code ≢ Status.ok
unfolding grpc_code
grpc_code-ne-ok (pos n) = ground arith
grpc_code-ne-ok (negsuc n) = ground arith

received-grpc_code :
    (code : ℤ)
    → received (grpc_code code) ≡ (if is_standard code then http_status_for_code code else 500)
unfolding grpc_code map_code Grpc.code_of as_client http_status_for_code
received-grpc_code (pos n) = ground arith
received-grpc_code (negsuc n) = refl

-- The code 0 stands for no code.
received_zero :
    (n : ℕ)
    → (n == 0) ≡ true
    → received internal ≡ (if is_standard (pos n) then http_status_for_code (pos n) else 500)
unfolding map_code Grpc.code_of as_client http_status_for_code
received_zero n h = ground arith

-- An application error that the server sends with GRPCStatus, and the client reads with
-- MapGRPCError, keeps the HTTP status of its business code if the code is of one of the seven
-- families that the two mappings name; every other code, a code without a family and a negative one
-- included, arrives as 500. Message, cause and the retry mark have no influence.
pub transport_status :
    (s : Status) (code : ℤ) (message : Text) (cause : Error) (retry : Bool)
    → http_status_for_code
        (Grpc.code_of (map_grpc_error s (grpc_status s (app code message cause retry))))
      ≡ (if is_standard code then http_status_for_code code else 500)
unfolding grpc_status code_of as_app
transport_status s (pos n) message cause retry = elim (Bool-cases (n == 0)) [
  | inl zero ↦ rw (zero, sent s internal internal_message (λ e. cc)) (received_zero n zero)
  | inr some ↦
      rw (some, sent s (grpc_code (pos n)) _ (grpc_code-ne-ok (pos n))) (received-grpc_code (pos n))
]
transport_status s (negsuc n) message cause retry =
    sent s (grpc_code (negsuc n)) _ (grpc_code-ne-ok (negsuc n)) ∙ received-grpc_code (negsuc n)
