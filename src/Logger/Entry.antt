-- ===== src/Logger/Entry.antt =====
-- One entry in the buffer: where its two parts lie, going round at the end, and what the memory
-- holds once the four copies of a write are made.
use droid_kernal.Prelude.{
  ℕ, ◌+◌, ◌-◌, ◌≤◌, ◌<◌, ◌≡◌, refl, sym, ap, ap₂, ◌∙◌, ◌⊎◌, inl, inr, List, ◌++◌, arith, min,
  length, take, drop, ltb, if◌then◌else◌, Bool-cases, length-take, length-drop, take-append-drop,
  ltb→lt, ltb→le,
}
use droid_kernal.Logger.Memory.{
  Mem, store, slice, slice-store_apart, slice-store_self, store_outside,
}
use droid_kernal.Logger.Types.{entry_size}

-- The offset behind a header at `w`.
abbrev pub payload_at : ℕ → ℕ → ℕ
payload_at size w = if ltb (w + entry_size) size then w + entry_size else w + entry_size - size

-- How much of `n` bytes at `w` lies before the end of the buffer.
abbrev pub before_end : ℕ → ℕ → ℕ → ℕ
before_end size w n = min n (size - w)

-- The copy of `bs` to `w`, going on at the start of the buffer.
abbrev pub store_round : ℕ → Mem → ℕ → List ℕ → Mem
store_round size m w bs =
    let k = before_end size w (length bs) in store (store m w (take k bs)) 0 (drop k bs)

-- The read of `n` bytes at `w`, going on at the start of the buffer.
abbrev pub slice_round : ℕ → Mem → ℕ → ℕ → List ℕ
slice_round size m w n = let k = before_end size w n in slice m w k ++ slice m 0 (n - k)

-- How far `q` lies ahead of `w`, going round.
abbrev pub ahead : ℕ → ℕ → ℕ → ℕ
ahead size w q = if ltb q w then q + size - w else q - w

-- Such a byte lies in neither part of `n` bytes at `w`.
ahead_apart :
    (size w q n : ℕ)
    → w < size
    → n ≤ size
    → q < size
    → n ≤ ahead size w q
    → ((q < w) ⊎ (w + before_end size w n ≤ q)) × (n - before_end size w n ≤ q)
ahead_apart size w q n inside fits below far = elim (Bool-cases (ltb q w)) [
  | inl e ↦
      let far' : n ≤ q + size - w = rw e at far in (inl (ltb→lt _ _ e), omega (arith, ltb→lt _ _ e))
  | inr e ↦
      let far' : n ≤ q - w = rw e at far in
      (inr (omega (arith, ltb→le _ _ e)), omega (arith, ltb→le _ _ e))
]

module _ (size : ℕ) (m : Mem) (w : ℕ) (bs : List ℕ) (inside : w < size)
    (fits : length bs ≤ size) where
  first_len : length (take (before_end size w (length bs)) bs) ≡ before_end size w (length bs)
  first_len = omega (arith, length-take (before_end size w (length bs)) bs)

  second_len :
      length (drop (before_end size w (length bs)) bs) ≡ length bs - before_end size w (length bs)
  second_len = length-drop (before_end size w (length bs)) bs

  -- The bytes come back in the order in which they went in.
  pub slice_round-store_round : slice_round size (store_round size m w bs) w (length bs) ≡ bs
  slice_round-store_round =
      ap₂ ◌++◌
        (slice-store_apart _ 0 _ w (before_end size w (length bs)) (inr (omega (arith, second_len)))
          ∙ slice-store_self m w _ _ (sym first_len))
        (slice-store_self _ 0 _ _ (sym second_len))
      ∙ take-append-drop (before_end size w (length bs)) bs

  -- A span that the copy does not meet is left as it was.
  pub slice-store_round :
      (q n : ℕ)
      → (q + n ≤ w) ⊎ (w + before_end size w (length bs) ≤ q)
      → (length bs - before_end size w (length bs) ≤ q) ⊎ (q + n ≤ 0)
      → slice (store_round size m w bs) q n ≡ slice m q n
  slice-store_round q n apart behind =
      slice-store_apart _ 0 _ q n
        (elim behind [ inl h ↦ inr (omega (arith, second_len)) | inr h ↦ inl h ])
      ∙ slice-store_apart m w _ q n
          (elim apart [ inl h ↦ inl h | inr h ↦ inr (omega (arith, first_len)) ])

  -- Likewise a byte that lies as far ahead of `w` as the copy is long.
  pub store_round_outside :
      (q : ℕ) → q < size → length bs ≤ ahead size w q → store_round size m w bs q ≡ m q
  store_round_outside q below far =
      store_outside _ 0 _ q
        (inr (omega (arith, second_len, (ahead_apart size w q _ inside fits below far).1)))
      ∙ store_outside m w _ q (elim (ahead_apart size w q _ inside fits below far).0 [
        | inl h ↦ inl h
        | inr h ↦ inr (omega (arith, first_len))
      ])

-- `w'` is the offset behind a header at `w`.
abbrev pub Behind : ℕ → ℕ → ℕ → Type 0
Behind size w w' =
    ((w + entry_size < size) × (w' ≡ w + entry_size))
    ⊎ ((size ≤ w + entry_size) × (w' + size ≡ w + entry_size))

pub payload_at-Behind : (size w : ℕ) → Behind size w (payload_at size w)
payload_at-Behind size w = elim (Bool-cases (ltb (w + entry_size) size)) [
  | inl e ↦ rw e (inl (ltb→lt _ _ e, refl))
  | inr e ↦ rw e (inr (ltb→le _ _ e, omega (arith, ltb→le _ _ e)))
]

-- A header at `w` and the payload behind it do not meet.
pub header-kept :
    (size : ℕ) (m : Mem) (w w' : ℕ) (p : List ℕ)
    → w < size
    → entry_size + length p ≤ size
    → Behind size w w'
    → slice_round size (store_round size m w' p) w entry_size ≡ slice_round size m w entry_size
header-kept size m w w' p inside fits (inl (h, e)) =
    ap₂ ◌++◌
      (slice-store_round size m w' p (omega arith) (omega arith) w _ (inl (omega arith))
        (inl (omega arith)))
      (slice-store_round size m w' p (omega arith) (omega arith) 0 _ (inl (omega arith))
        (inr (omega arith)))
header-kept size m w w' p inside fits (inr (h, e)) =
    ap₂ ◌++◌
      (slice-store_round size m w' p (omega arith) (omega arith) w _ (inr (omega arith))
        (inl (omega arith)))
      (slice-store_round size m w' p (omega arith) (omega arith) 0 _ (inl (omega arith))
        (inl (omega arith)))

ahead-Behind :
    (size w w' q n : ℕ)
    → q < size
    → Behind size w w'
    → entry_size + n ≤ ahead size w q
    → n ≤ ahead size w' q
ahead-Behind size w w' q n below (inl (h, e)) far = ground arith
ahead-Behind size w w' q n below (inr (h, e)) far = ground arith

-- The memory after a write at `w`: the header's bytes, then the payload's.
abbrev pub store_entry : ℕ → Mem → ℕ → ℕ → List ℕ → List ℕ → Mem
store_entry size m w w' hdr p = store_round size (store_round size m w hdr) w' p

module _ (size : ℕ) (m : Mem) (w w' : ℕ) (hdr p : List ℕ) (inside : w < size)
    (fits : entry_size + length p ≤ size) (whole : length hdr ≡ entry_size)
    (behind : Behind size w w') where
  pub header_of_entry : slice_round size (store_entry size m w w' hdr p) w entry_size ≡ hdr
  header_of_entry =
      header-kept size _ w w' p inside fits behind
      ∙ ap (slice_round size (store_round size m w hdr) w) (sym whole)
      ∙ slice_round-store_round size m w hdr inside (omega arith)

  pub payload_of_entry : slice_round size (store_entry size m w w' hdr p) w' (length p) ≡ p
  payload_of_entry = slice_round-store_round size _ w' p (omega arith) (omega arith)

  -- Every byte of the buffer at a distance of the entry's length or more keeps its value.
  pub outside_entry :
      (q : ℕ)
      → q < size
      → entry_size + length p ≤ ahead size w q
      → store_entry size m w w' hdr p q ≡ m q
  outside_entry q below far =
      store_round_outside size _ w' p (omega arith) (omega arith) q below
        (ahead-Behind size w w' q _ below behind far)
      ∙ store_round_outside size m w hdr inside (omega arith) q below (omega arith)
