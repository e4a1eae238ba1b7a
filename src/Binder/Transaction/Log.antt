-- ===== src/Binder/Transaction/Log.antt =====
-- The ring of transaction log entries.
use droid_kernal.Prelude.{
  ℕ, zero, suc, ◌+◌, ◌-◌, ◌%◌, ◌^◌, ◌≤◌, ◌<◌, ◌≡◌, ◌≢◌, ◌↔◌, refl, true, false, arith, leb, ◌==◌,
  ne→==, eq→==, if_true, if_false, ap, sym,
}
use droid_kernal.Binder.Types.{inc32}
use droid_kernal.Binder.Transaction.{
  TransactionLog, zero_entry, log_entries, binder_transaction_log_add,
}

-- The log as `binder_init` sets it up: the count before 0.
abbrev pub fresh_log : TransactionLog
fresh_log = record { cur = 2 ^ 32 - 1; full = false; entry = λ k. zero_entry }

abbrev pub add_many : ℕ → TransactionLog → TransactionLog
add_many zero log = log
add_many (suc n) log = (binder_transaction_log_add (add_many n log)).1

cur-add_many : (n : ℕ) → n ≤ 2 ^ 32 → (add_many n fresh_log).cur ≡ (n + (2 ^ 32 - 1)) % 2 ^ 32
unfolding binder_transaction_log_add
cur-add_many zero h = refl
cur-add_many (suc n) h = omega (arith, cur-add_many n (omega arith))

full-add_many : (n : ℕ) → n ≤ 2 ^ 32 → (add_many n fresh_log).full ≡ leb (suc log_entries) n
unfolding binder_transaction_log_add
full-add_many zero h = refl
full-add_many (suc n) h = ground (arith, cur-add_many n, full-add_many n)

-- Within the first 2 ^ 32 entries, the entry behind n others goes to slot n % 32; the log counts
-- as full once more than 32 have been added, and not before; and the new entry is clear while the
-- entries of all other slots stay.
binder_transaction_log_add_lem :
    (n : ℕ)
    → n < 2 ^ 32
    → let log = add_many n fresh_log in
      let (slot, added) = binder_transaction_log_add log in
      (slot ≡ n % log_entries)
      × ((added.full ≡ true) ↔ (log_entries ≤ n))
      × (added.entry slot ≡ zero_entry)
      × ((k : ℕ) → k ≢ slot → added.entry k ≡ log.entry k)
unfolding binder_transaction_log_add
binder_transaction_log_add_lem n h =
    let c : inc32 (add_many n fresh_log).cur ≡ n = omega (arith, cur-add_many n (omega arith)) in
    let f : (add_many n fresh_log).full ≡ leb (suc log_entries) n = full-add_many n (omega arith) in
    let slot = inc32 (add_many n fresh_log).cur % log_entries in
    (
      ap (λ m. m % log_entries) c,
      ((λ e. ground arith), (λ e. ground arith)),
      if_true (slot == slot) _ _ (eq→== slot slot refl),
      λ k ne. if_false (slot == k) _ _ (ne→== slot k (λ q. ne (sym q))),
    )
