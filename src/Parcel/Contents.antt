-- ===== src/Parcel/Contents.antt =====
-- What write and writeInt32 leave in a parcel.
use droid_kernal.Prelude.{
  ℕ, ◌+◌, ◌/◌, ◌*◌, ◌%◌, ◌^◌, ◌<◌, ◌≤◌, ◌≡◌, ◌⊎◌, refl, ap, ap₂, subst, ◌∙◌, true, false, Option,
  none, some, ◌||◌, leb, if◌then◌else◌, arith,
}
use droid_kernal.Parcel.{
  no_error, no_memory, is_no_error, int32_max, pad_size, max, FlatObject, Array, Parcel, bytes_of,
}
use droid_kernal.Parcel.Resize.{
  Answers, kept_objects, continue_owned, trim_objects, resize_data, first_data, continue_write,
  grow_data,
}
use droid_kernal.Parcel.Write.{finish_write, restart_write, write_inplace, copy_in, write}
use droid_kernal.Parcel.Room.{room_of, Fits, grow_data-Grown}

-- `q` is `p` with `len` bytes of `source` written at the position, and zeros up to the padded length.
pub record Written (len : ℕ) (source : ℕ → ℕ) (p q : Parcel) : Type 0 where
  pub fits : Fits q
  pub pos_is : q.m_data_pos ≡ p.m_data_pos + pad_size len
  pub size_is : q.m_data_size ≡ max p.m_data_size (p.m_data_pos + pad_size len)
  pub holds : (i : ℕ) → i < len → bytes_of q.m_data (p.m_data_pos + i) ≡ source i
  pub zeros : (i : ℕ) → len ≤ i → i < pad_size len → bytes_of q.m_data (p.m_data_pos + i) ≡ 0
  pub keeps :
      (i : ℕ)
      → i < p.m_data_size
      → i < p.m_data_pos ⊎ p.m_data_pos + pad_size len ≤ i
      → bytes_of q.m_data i ≡ bytes_of p.m_data i

restart_write-Written :
    (len : ℕ) (source : ℕ → ℕ) (p : Parcel) (b : Array)
    → p.m_data ≡ some b
    → Fits p
    → 0 < len
    → len ≤ int32_max
    → p.m_data_pos + pad_size len ≤ p.m_data_capacity
    → let r = copy_in len source (restart_write len p) in
      r.0 ≡ no_error × Written len source p (r.1)
unfolding restart_write finish_write pad_size max
restart_write-Written len source p b e h some_len small room = (
  ground arith,
  record {
    fits = record {
      pos_le = ground arith;
      size_le = ground arith;
      room_is = ground arith;
      small = ground arith;
    };
    pos_is = ground arith;
    size_is = ground arith;
    holds = λ i lt. ground arith;
    zeros = λ i ge lt. ground arith;
    keeps = λ i lt out. ground arith;
  },
)

-- A padded length is the least multiple of 4 that is at least the length.
pub pad_size_lem :
    (len : ℕ) → len ≤ int32_max → pad_size len % 4 ≡ 0 × len ≤ pad_size len × pad_size len < len + 4
unfolding pad_size
pad_size_lem len small = (omega arith, omega arith, omega arith)

at_restart-Written :
    (len : ℕ) (source : ℕ → ℕ) (p : Parcel)
    → Fits p
    → 0 < len
    → len ≤ int32_max
    → p.m_data_pos + pad_size len ≤ p.m_data_capacity
    → let r = copy_in len source (restart_write len p) in
      r.0 ≡ no_error × Written len source p (r.1)
at_restart-Written len source p h some_len small room = buffer p.m_data refl
  where
    buffer :
        (d : Option Array)
        → p.m_data ≡ d
        → let r = copy_in len source (restart_write len p) in
          r.0 ≡ no_error × Written len source p (r.1)
    buffer none e = absurd (omega (arith, h.room_is, ap room_of e, (pad_size_lem len small).1))
    buffer (some b) e = restart_write-Written len source p b e h some_len small room

Written-grown :
    {len : ℕ} {source : ℕ → ℕ} {p q r : Parcel}
    → q.m_data_pos ≡ p.m_data_pos
    → q.m_data_size ≡ p.m_data_size
    → ((i : ℕ) → i < p.m_data_size → bytes_of q.m_data i ≡ bytes_of p.m_data i)
    → Written len source q r
    → Written len source p r
unfolding max
Written-grown {len} {source} {p} {q} {r} e f same w = record {
  fits = w.fits;
  pos_is = ground (arith, w.pos_is);
  size_is = w.size_is ∙ ap₂ (λ pos size. max size (pos + pad_size len)) e f;
  holds = λ i lt. subst (λ pos. bytes_of r.m_data (pos + i) ≡ source i) e (w.holds i lt);
  zeros = λ i ge lt. subst (λ pos. bytes_of r.m_data (pos + i) ≡ 0) e (w.zeros i ge lt);
  keeps = λ i lt out. ground (arith, w.keeps i, same i lt);
}

-- A write that failed changes nothing but the error.
abbrev pub SameButError : Parcel → Parcel → Type 0
SameButError p q = q ≡ p ⊎ q ≡ record p { m_error = no_memory }

module _ (object_at : (ℕ → ℕ) → ℕ → FlatObject) (proxy_for_handle : ℕ → Option ℕ) where
  continue_write_failed :
      (k : Answers) (desired : ℕ) (p : Parcel)
      → p.m_data_size < desired
      → is_no_error ((continue_write object_at proxy_for_handle k desired p).0) ≡ false
      → SameButError p ((continue_write object_at proxy_for_handle k desired p).1)
  unfolding continue_write kept_objects trim_objects resize_data continue_owned first_data
  continue_write_failed k desired p lt bad = ground arith

  grow_data_failed :
      (k : Answers) (len : ℕ) (p : Parcel)
      → is_no_error ((grow_data object_at proxy_for_handle k len p).0) ≡ false
      → SameButError p ((grow_data object_at proxy_for_handle k len p).1)
  unfolding grow_data
  grow_data_failed k len p bad =
      ground (arith, continue_write_failed k ((p.m_data_size + len) * 3 % 2 ^ 64 / 2) p)

  written_or_failed :
      (k : Answers) (len : ℕ) (source : ℕ → ℕ) (p : Parcel)
      → Fits p
      → 0 < len
      → len ≤ int32_max
      → let g = grow_data object_at proxy_for_handle k (pad_size len) p in
        p.m_data_capacity < p.m_data_pos + pad_size len
        → is_no_error (g.0) ≡ true
        → let r = copy_in len source (restart_write len (g.1)) in
          r.0 ≡ no_error × Written len source p (r.1)
  written_or_failed k len source p h some_len small full ok =
      let (fits, room, e, f, same) =
        grow_data-Grown object_at proxy_for_handle k (pad_size len) p h full ok in
      let (status, w) =
        at_restart-Written len source ((grow_data object_at proxy_for_handle k (pad_size len) p).1)
          fits some_len small (omega (arith, e, room)) in
      (status, Written-grown e f same w)

  -- write of 1 to INT32_MAX bytes, at a position within the data: where the capacity or growData gives room,
  -- it answers NO_ERROR, the bytes stand at the old position with zeros up to the padded length, the position
  -- is behind them, and every other byte stays; where growData fails, it changes nothing but the error, and
  -- answers the error of the parcel.
  pub write-Written :
      (k : Answers) (len : ℕ) (source : ℕ → ℕ) (p : Parcel)
      → Fits p
      → 0 < len
      → len ≤ int32_max
      → let grown = is_no_error ((grow_data object_at proxy_for_handle k (pad_size len) p).0) in
        let r = write object_at proxy_for_handle k len source p in
        if leb (p.m_data_pos + pad_size len) p.m_data_capacity || grown
        then r.0 ≡ no_error × Written len source p (r.1)
        else r.0 ≡ (r.1).m_error × SameButError p (r.1)
  unfolding write write_inplace
  write-Written k len source p h some_len small = ground (
    arith,
    pad_size_lem len small,
    at_restart-Written len source p h some_len small,
    written_or_failed k len source p h some_len small,
    grow_data_failed k (pad_size len) p,
  )
