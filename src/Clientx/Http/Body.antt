-- ===== src/Clientx/Http/Body.antt =====
-- clientx/http.go: limitedResponseBody, over an io.Reader.
use dilu_go_kit.Base.{
  ℕ, ◌+◌, ◌-◌, ◌≤◌, ◌<◌, ◌≡◌, refl, ap, ◌∙◌, sym, List, [], ◌∷◌, ◌++◌, Bool, true, false, ◌||◌,
  ◌==◌, if◌then◌else◌, if_cases, length, arith, Bool-cases, ◌⊎◌, inl, inr, append_assoc,
  length-append,
}
use Prim.Native.Nat.{min}
use dilu_go_kit.Errors.{Error, nil, sentinel, response_body_too_large, is}

-- errors.Is with ErrResponseBodyTooLarge.
abbrev pub is_limit : Error → Bool
is_limit err = is err response_body_too_large

-- What a call of Read gives: bytes, an error (nil for none), and the reader after it.
pub record Read (S : Type 0) : Type 0 where
  pub bytes : List ℕ
  pub err : Error
  pub next : S

-- An io.Reader: `read n` is Read with a buffer of n bytes, which it does not overrun, and `content` what
-- is still to come. It does not make up the error of the limit.
pub record Reader : Type 1 where
  pub S : Type 0
  pub read : ℕ → S → Read S
  pub content : S → List ℕ
  pub fits : (n : ℕ) (s : S) → length (read n s).bytes ≤ n
  pub in_order : (n : ℕ) (s : S) → (read n s).bytes ++ content (read n s).next ≡ content s
  pub own_errors : (n : ℕ) (s : S) → is_limit (read n s).err ≡ false

pub record LimitedBody (S : Type 0) : Type 0 where
  pub source : S
  pub remaining : ℕ

module _ (r : Reader) where
  open r use {S, read, content, fits, in_order, own_errors}

  -- The byte by which a body that has been read up to its limit shows that it goes on.
  abbrev pub probed : LimitedBody S → Read S → Read (LimitedBody S)
  probed b got = record {
    bytes = [];
    err = if length got.bytes == 0 then got.err else sentinel response_body_too_large;
    next = record b { source = got.next };
  }

  abbrev pub counted : LimitedBody S → Read S → Read (LimitedBody S)
  counted b got = record {
    bytes = got.bytes;
    err = got.err;
    next = record { source = got.next; remaining = b.remaining - length got.bytes };
  }

  -- Read with a buffer of `size` bytes, on a body that is not nil.
  unfoldable pub limited_read : ℕ → LimitedBody S → Read (LimitedBody S)
  limited_read size b =
      if size == 0
      then record { bytes = []; err = nil; next = b }
      else if b.remaining == 0
      then probed b (read 1 b.source)
      else counted b (read (min size b.remaining) b.source)

  -- What reads with these buffers deliver, whether one of them reports the limit, and the body after
  -- them.
  pub record Delivery : Type 0 where
    pub bytes : List ℕ
    pub reported : Bool
    pub last : LimitedBody S

  abbrev pub prepend : Read (LimitedBody S) → Delivery → Delivery
  prepend got rest = record {
    bytes = got.bytes ++ rest.bytes;
    reported = is_limit got.err || rest.reported;
    last = rest.last;
  }

  unfoldable pub deliver : List ℕ → LimitedBody S → Delivery
  unfolding limited_read is
  deliver [] b = record { bytes = []; reported = false; last = b }
  deliver (size ∷ sizes) b = let got = limited_read size b in prepend got (deliver sizes got.next)

  -- Either all is in order, or the body was longer than its limit.
  abbrev pub Limited : LimitedBody S → Delivery → Type 0
  Limited b d =
      ((d.reported ≡ false)
        × (d.bytes ++ content d.last.source ≡ content b.source)
        × (length d.bytes + d.last.remaining ≡ b.remaining))
      ⊎ ((d.reported ≡ true)
          × (length d.bytes ≡ b.remaining)
          × (b.remaining < length (content b.source))
          × (rest : List ℕ) × (d.bytes ++ rest ≡ content b.source))

  Limited-le : (b : LimitedBody S) (d : Delivery) → Limited b d → length d.bytes ≤ b.remaining
  Limited-le b d (inl (_, _, e)) = omega (arith, e)
  Limited-le b d (inr (_, e, _, _, _)) = omega (arith, e)

  no_bytes : (bs : List ℕ) → length bs ≡ 0 → bs ≡ []
  no_bytes [] h = refl
  no_bytes (x ∷ bs) h = absurd (omega arith)

  same_content : (n : ℕ) (s : S) → length (read n s).bytes ≡ 0 → content (read n s).next ≡ content s
  same_content n s h =
      ap (λ bs. bs ++ content (read n s).next) (sym (no_bytes (read n s).bytes h)) ∙ in_order n s

  whole_length :
      (n : ℕ) (s : S)
      → length (read n s).bytes + length (content (read n s).next) ≡ length (content s)
  whole_length n s =
      omega
        (arith, length-append (read n s).bytes (content (read n s).next), ap length (in_order n s))

  -- The three branches of a read, before the reads that follow it.
  probe_dry :
      (b : LimitedBody S) (d : Delivery)
      → length (read 1 b.source).bytes ≡ 0
      → Limited (record b { source = (read 1 b.source).next }) d
      → Limited b (prepend (probed b (read 1 b.source)) d)
  probe_dry b d dry (inl (quiet, order, size)) =
      inl (
        ground (arith, dry, own_errors 1 b.source, quiet),
        order ∙ same_content 1 b.source dry,
        size,
      )
  probe_dry b d dry (inr (loud, size, long, rest, order)) =
      let same = same_content 1 b.source dry in
      inr (
        ground (arith, dry, own_errors 1 b.source, loud),
        size,
        omega (arith, long, ap length same),
        rest,
        order ∙ same,
      )

  probe_wet :
      (b : LimitedBody S) (d : Delivery)
      → (length (read 1 b.source).bytes == 0) ≡ false
      → b.remaining ≡ 0
      → Limited (record b { source = (read 1 b.source).next }) d
      → Limited b (prepend (probed b (read 1 b.source)) d)
  unfolding is
  probe_wet b d wet spent h =
      let none_left =
        no_bytes d.bytes
          (omega (arith, spent, Limited-le (record b { source = (read 1 b.source).next }) d h)) in
      inr (
        rw wet refl,
        ap length none_left ∙ sym spent,
        ground (arith, wet, spent, whole_length 1 b.source),
        content b.source,
        ap (λ bs. bs ++ content b.source) none_left,
      )

  probe_read :
      (b : LimitedBody S) (d : Delivery)
      → b.remaining ≡ 0
      → Limited (record b { source = (read 1 b.source).next }) d
      → Limited b (prepend (probed b (read 1 b.source)) d)
  probe_read b d spent h = elim (Bool-cases (length (read 1 b.source).bytes == 0)) [
    | inl dry ↦ probe_dry b d (ground (arith, dry)) h
    | inr wet ↦ probe_wet b d wet spent h
  ]

  count_read :
      (b : LimitedBody S) (n : ℕ) (d : Delivery)
      → length (read n b.source).bytes ≤ b.remaining
      → Limited (counted b (read n b.source)).next d
      → Limited b (prepend (counted b (read n b.source)) d)
  count_read b n d few (inl (quiet, order, size)) =
      let bs = (read n b.source).bytes in
      inl (
        ground (arith, own_errors n b.source, quiet),
        append_assoc bs d.bytes (content d.last.source)
            ∙ ap (λ cs. bs ++ cs) order
            ∙ in_order n b.source,
        omega (arith, size, few, length-append bs d.bytes),
      )
  count_read b n d few (inr (loud, size, long, rest, order)) =
      let bs = (read n b.source).bytes in
      inr (
        ground (arith, own_errors n b.source, loud),
        omega (arith, size, few, length-append bs d.bytes),
        omega (arith, long, few, whole_length n b.source),
        rest,
        append_assoc bs d.bytes rest ∙ ap (λ cs. bs ++ cs) order ∙ in_order n b.source,
      )

  -- A successful response's body, with its limit, read with any buffers. If it is no longer than the
  -- limit, no read reports the limit: what has been delivered is what has come so far, in its order, and
  -- counts against the limit. If a read reports it, the body is longer, and exactly its first bytes
  -- up to the limit have been delivered; a longer body is never delivered any further.
  pub deliver-Limited : (sizes : List ℕ) (b : LimitedBody S) → Limited b (deliver sizes b)
  unfolding deliver limited_read is
  deliver-Limited [] b = inl (refl, refl, omega arith)
  deliver-Limited (size ∷ sizes) b =
      let after =
        λ (got : Read (LimitedBody S)). Limited b (prepend got (deliver sizes got.next)) in
      let probe = probed b (read 1 b.source) in
      let count = counted b (read (min size b.remaining) b.source) in
      let later = λ (got : Read (LimitedBody S)). deliver-Limited sizes got.next in
      if_cases {A = Read (LimitedBody S)} after (size == 0) (λ h. deliver-Limited sizes b)
        (λ h.
          if_cases {A = Read (LimitedBody S)} after (b.remaining == 0)
            (λ spent. probe_read b (deliver sizes probe.next) (ground (arith, spent)) (later probe))
            (λ more.
              count_read b (min size b.remaining) (deliver sizes count.next)
                (omega (arith, fits (min size b.remaining) b.source)) (later count)))
