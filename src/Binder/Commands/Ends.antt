-- ===== src/Binder/Commands/Ends.antt =====
-- How long the loop of binder_thread_write runs.
use droid_kernal.Prelude.{
  ℕ, zero, suc, ◌+◌, ◌*◌, ◌^◌, ◌≤◌, ◌<◌, ◌≡◌, ◌≢◌, refl, ap, ◌∙◌, Bool, none, some, arith,
}
use droid_kernal.Binder.Types.{Uapi, zero_ret}
use droid_kernal.Binder.Proc.{Thread}
use droid_kernal.Binder.Transaction.{TransactionData, Sender}
use droid_kernal.Binder.Commands.{
  UserMem, Work, written, more, advance, Next, stops, goes_on, write_command, write_round,
  write_loop, binder_thread_write,
}

-- User memory lies below `limit`, far enough from the top of the address space that no address in
-- it wraps: no read at or above it succeeds.
pub record Bounded (m : UserMem) (limit : ℕ) : Type 0 where
  pub get_below : (a : ℕ) → limit ≤ a → m.get_user a ≡ none
  pub copy_below : (a : ℕ) → limit ≤ a → m.copy_from_user a ≡ none
  pub room : limit + 4 + m.sizeof_tr < 2 ^ 64

module _ (u : Uapi) (m : UserMem) (limit : ℕ) (bounded : Bounded m limit) (who : Sender)
    (memory : ℕ → Bool) (thread : Thread) where
  get-lt : (a cmd : ℕ) → m.get_user a ≡ some cmd → a < limit
  get-lt a cmd e = ground (arith, bounded.get_below a)

  copy-lt : (a : ℕ) (td : TransactionData) → m.copy_from_user a ≡ some td → a < limit
  copy-lt a td e = ground (arith, bounded.copy_below a)

  -- A round that goes on has moved by 4 bytes at least, and lies below the end of memory.
  pub write_round-goes_on :
      (ptr end : ℕ) (w : Work) (next : ℕ) (w' : Work)
      → write_round u m who memory thread ptr end w ≡ goes_on next w'
      → (ptr + 4 ≤ next) × (ptr < end)
  unfolding write_round write_command
  write_round-goes_on ptr end w next w' e =
      ground (arith, bounded.get_below ptr, bounded.copy_below (ptr + 4), bounded.room)

  write_round-stops :
      (ptr end : ℕ) (w : Work) → write_round u m who memory thread ptr end w ≢ stops more
  unfolding write_round write_command
  write_round-stops ptr end w e = ground arith

  pub write_round_at_end :
      (ptr end : ℕ) (w : Work)
      → end ≤ ptr
      → write_round u m who memory thread ptr end w ≡ stops (written zero_ret w)
  unfolding write_round
  write_round_at_end ptr end w h = ground arith

  pub write_loop_ends :
      (fuel ptr end : ℕ) (w : Work)
      → end ≤ ptr + 4 * fuel
      → write_loop u m who memory thread (suc fuel) ptr end w ≢ more
  unfolding write_loop
  write_loop_ends zero ptr end w h =
      rw (write_round_at_end ptr end w (omega (arith, h)), write_loop) (λ e. ground arith)
  write_loop_ends (suc fuel) ptr end w h =
      go (write_loop_ends fuel) (write_round u m who memory thread ptr end w) refl
    where
      go :
          ((next : ℕ) (e' : ℕ) (w' : Work)
            → e' ≤ next + 4 * fuel
            → write_loop u m who memory thread (suc fuel) next e' w' ≢ more)
          → (n : Next) → write_round u m who memory thread ptr end w ≡ n
          → write_loop u m who memory thread (suc (suc fuel)) ptr end w ≢ more
      go ih (stops r) e = rw (e, write_loop) (λ q. write_round-stops ptr end w (e ∙ ap stops q))
      go ih (goes_on next w') e =
          let moved = write_round-goes_on ptr end w next w' e in
          let near : end ≤ next + 4 * fuel = omega (arith, h, moved.0) in
          rw (e, write_loop) (ih next end w' near)

  -- Whatever the commands are, and whether or not they can be read, one round for every 4 bytes and
  -- one more are enough, where the buffer does not wrap: the loop returns, or ends in a fault of the
  -- kernel.
  pub binder_thread_write_ends :
      (fuel buffer size consumed : ℕ) (w : Work)
      → buffer + size < 2 ^ 64
      → consumed ≤ size
      → size ≤ consumed + 4 * fuel
      → binder_thread_write u m who memory thread (suc fuel) buffer size consumed w ≢ more
  unfolding binder_thread_write
  binder_thread_write_ends fuel buffer size consumed w room in_buffer enough =
      write_loop_ends fuel (advance buffer consumed) (advance buffer size) w (omega arith)
