-- ===== src/Store.antt =====
-- store/opts.go: the paging options of a list query.
use dilu_go_kit.Base.{
  ℕ, ◌-◌, ◌*◌, ◌/◌, ◌%◌, ◌^◌, ◌≤◌, ◌≡◌, none, some, List, map, if◌then◌else◌, ltb, arith,
}
use Prim.Native.Nat.{min}
use native.Mathlib.Nat.{le-div_iff_mul-le}
use dilu_go_kit.Base.Int.{ℤ, pos, negsuc, leb_ℤ, ltb_ℤ, pos_part, positive_or}
use dilu_go_kit.Base.Text.{Text, trim_space, to_lower}
use dilu_go_kit.Base.Dict.{lookup}

pub record ListOpts : Type 0 where
  pub page : ℤ
  pub size : ℤ
  pub order_by : Text

-- math.MaxInt
abbrev pub max_int : ℕ
max_int = 2 ^ 63 - 1

-- The int that a product is: it wraps at 64 bits.
abbrev pub wrap : ℕ → ℤ
wrap n = let r = n % 2 ^ 64 in if ltb r (2 ^ 63) then pos r else negsuc (2 ^ 64 - r - 1)

-- PageSize
unfoldable pub page_size : ListOpts → ℕ
page_size o =
    if leb_ℤ o.size (pos 0) then 20 else if ltb_ℤ (pos 500) o.size then 500 else pos_part o.size

-- Offset
unfoldable pub offset : ListOpts → ℤ
unfolding page_size
offset o =
    let p = positive_or 1 o.page in
    let size = page_size o in
    if ltb (max_int / size) (p - 1) then pos max_int else wrap ((p - 1) * size)

-- SafeOrderBy. The allowed keys are ASCII, as the lower case of other letters is not modelled.
unfoldable pub safe_order_by : ListOpts → List (Text × Text) → Text → Text
safe_order_by o allowed fallback = elim (lookup (map to_lower (trim_space o.order_by)) allowed) [
  | none ↦ fallback
  | some clause ↦ clause
]

page_size-bounds : (o : ListOpts) → (1 ≤ page_size o) × (page_size o ≤ 500)
unfolding page_size
page_size-bounds o = ground arith

-- A page that starts at most at the greatest int, by the guard of Offset.
guarded : (k size : ℕ) → 1 ≤ size → (ltb (max_int / size) k ≡ ltb max_int (k * size))
guarded k size h = ground (arith, le-div_iff_mul-le {k = size} {x = k} {y = max_int} h)

saturated : (n : ℕ) → (if ltb max_int n then pos max_int else wrap n) ≡ pos (min n max_int)
saturated n = ground arith

-- PageSize is between 1 and 500, and Offset is the number of entries on the pages before this one,
-- or the greatest int where that number is greater; the multiplication never overflows.
pub offset_saturates :
    (o : ListOpts)
    → (1 ≤ page_size o)
      × (page_size o ≤ 500)
      × (offset o ≡ pos (min ((positive_or 1 o.page - 1) * page_size o) max_int))
unfolding offset
offset_saturates o =
    let (low, high) = page_size-bounds o in
    let product = (positive_or 1 o.page - 1) * page_size o in
    (low, high, rw (guarded (positive_or 1 o.page - 1) (page_size o) low) (saturated product))
