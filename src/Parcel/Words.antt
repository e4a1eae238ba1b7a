-- ===== src/Parcel/Words.antt =====
-- writeInt32 of Parcel.cpp against write, and the word that it leaves.
use droid_kernal.Prelude.{
  ℕ, ◌+◌, ◌*◌, ◌^◌, ◌<◌, ◌≡◌, ap₂, subst, ◌∙◌, true, Option, ◌||◌, leb, if◌then◌else◌, arith,
}
use droid_kernal.Parcel.{is_no_error, pad_size, FlatObject, Parcel, bytes_of}
use droid_kernal.Parcel.Resize.{Answers, grow_data}
use droid_kernal.Parcel.Write.{
  finish_write, restart_write, write_inplace, copy_in, write, byte, write_word, write_int32,
}
use droid_kernal.Parcel.Room.{room_of, Fits, grow_data-Grown}
use droid_kernal.Parcel.Contents.{Written, write-Written}

write_word-copy_in :
    (val : ℕ) (p : Parcel)
    → 0 < room_of p.m_data
    → write_word val p ≡ copy_in 4 (byte val) (restart_write 4 p)
unfolding write_word restart_write finish_write pad_size
write_word-copy_in val p h = ground arith

-- The word at an offset, the lowest byte first.
abbrev pub int32_at : Parcel → ℕ → ℕ
int32_at p at =
    let b = bytes_of p.m_data in
    b at + 256 * b (at + 1) + 256 ^ 2 * b (at + 2) + 256 ^ 3 * b (at + 3)

bytes_of_word :
    (val : ℕ)
    → val < 2 ^ 32
    → byte val 0 + 256 * byte val 1 + 256 ^ 2 * byte val 2 + 256 ^ 3 * byte val 3 ≡ val
bytes_of_word val h = omega arith

pub Written-word :
    (val : ℕ) (p q : Parcel)
    → val < 2 ^ 32
    → Written 4 (byte val) p q
    → int32_at q p.m_data_pos ≡ val
Written-word val p q small w =
    let here : p.m_data_pos + 0 ≡ p.m_data_pos = omega arith in
    let lowest : bytes_of q.m_data p.m_data_pos ≡ byte val 0 =
      subst (λ at. bytes_of q.m_data at ≡ byte val 0) here (w.holds 0 (omega arith)) in
    ap₂
      (λ a b.
        a
        + 256 * b
        + 256 ^ 2 * bytes_of q.m_data (p.m_data_pos + 2)
        + 256 ^ 3 * bytes_of q.m_data (p.m_data_pos + 3))
      lowest (w.holds 1 (omega arith))
    ∙ ap₂ (λ c d. byte val 0 + 256 * byte val 1 + 256 ^ 2 * c + 256 ^ 3 * d)
        (w.holds 2 (omega arith)) (w.holds 3 (omega arith))
    ∙ bytes_of_word val small

module _ (object_at : (ℕ → ℕ) → ℕ → FlatObject) (proxy_for_handle : ℕ → Option ℕ) where
  -- writeInt32 at a position within the data is write of the four bytes of the value: where there is room or
  -- growData makes it the two end alike, and where growData fails they leave the same parcel, and writeInt32
  -- answers the status of growData.
  pub write_int32-write :
      (k : Answers) (val : ℕ) (p : Parcel)
      → Fits p
      → let grown = grow_data object_at proxy_for_handle k 4 p in
        let word = write_int32 object_at proxy_for_handle k val p in
        let copied = write object_at proxy_for_handle k 4 (byte val) p in
        if leb (p.m_data_pos + 4) p.m_data_capacity || is_no_error (grown.0)
        then word ≡ copied
        else word ≡ (grown.0, copied.1)
  unfolding write_int32 write write_inplace pad_size
  write_int32-write k val p h = ground (
    arith,
    grow_data-Grown object_at proxy_for_handle k 4 p h,
    write_word-copy_in val p,
    write_word-copy_in val ((grow_data object_at proxy_for_handle k 4 p).1),
  )

  pub write_int32-Written :
      (k : Answers) (val : ℕ) (p : Parcel)
      → Fits p
      → is_no_error ((write_int32 object_at proxy_for_handle k val p).0) ≡ true
      → Written 4 (byte val) p ((write_int32 object_at proxy_for_handle k val p).1)
  unfolding pad_size
  write_int32-Written k val p h ok =
      let as_write = write_int32-write k val p h in
      let written =
        write-Written object_at proxy_for_handle k 4 (byte val) p h (omega arith) (omega arith) in
      ground (arith, as_write, written)

  -- A word that writeInt32 wrote stands at the position it was written at.
  pub write_int32_lem :
      (k : Answers) (val : ℕ) (p : Parcel)
      → Fits p
      → val < 2 ^ 32
      → is_no_error ((write_int32 object_at proxy_for_handle k val p).0) ≡ true
      → int32_at ((write_int32 object_at proxy_for_handle k val p).1) p.m_data_pos ≡ val
  write_int32_lem k val p h small ok = Written-word val p _ small (write_int32-Written k val p h ok)
