-- ===== src/Resp/Codes.antt =====
-- The standard business codes of resp/codes.go.
use dilu_go_kit.Base.Int.{ℤ, pos}

abbrev pub ok : ℤ
ok = pos 200

abbrev pub invalid_param : ℤ
invalid_param = pos 40001

abbrev pub unauthorized : ℤ
unauthorized = pos 40101

abbrev pub token_invalid : ℤ
token_invalid = pos 40103

abbrev pub forbidden : ℤ
forbidden = pos 40301

abbrev pub not_found : ℤ
not_found = pos 40401

abbrev pub conflict : ℤ
conflict = pos 40901

abbrev pub too_many_reqs : ℤ
too_many_reqs = pos 42901

abbrev pub internal : ℤ
internal = pos 50000

abbrev pub service_down : ℤ
service_down = pos 50002
