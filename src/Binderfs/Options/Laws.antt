-- ===== src/Binderfs/Options/Laws.antt =====
-- The mount options of binderfs.c: what is printed and read, and what a remount keeps.
use droid_kernal.Prelude.{
  ◌≤◌, ◌≡◌, inl, inr, refl, ap, Bool, true, none, some, List, [], ◌∷◌, arith, Bool-cases,
}
use droid_kernal.Binder.Types.{Ret, zero_ret, err, Errno}
use droid_kernal.Binderfs.Options.{
  StatsMode, MountOpts, Token, opt_err, max_minor, default_opts, parse_token, parse_loop, Parsed,
  stop, go, global, str_eq, empty, opt_max, opt_stat_mode, check_mode, binderfs_parse_mount_opts,
  binderfs_remount, binderfs_show_mount_opts,
}

-- What the file system prints as its options is read back, by a task that may set them, as the same
-- options, whatever stood there before.
parse-show :
    (o old : MountOpts)
    → o.max ≤ max_minor
    → binderfs_parse_mount_opts true (binderfs_show_mount_opts o) old ≡ (zero_ret, o)
unfolding binderfs_parse_mount_opts binderfs_show_mount_opts parse_loop parse_token str_eq
parse-show o old small = ground arith

parse_token-le :
    (capable : Bool) (t : Token) (o o' : MountOpts)
    → o.max ≤ max_minor
    → parse_token capable t o ≡ go o'
    → o'.max ≤ max_minor
unfolding parse_token
parse_token-le capable empty o o' h e = ground arith
parse_token-le capable (opt_max none) o o' h e = ground arith
parse_token-le capable (opt_max (some n)) o o' h e = ground arith
parse_token-le capable (opt_stat_mode none) o o' h e = ground arith
parse_token-le capable (opt_stat_mode (some a)) o o' h e = elim (Bool-cases (str_eq a global)) [
  | inl same ↦ ground arith
  | inr other ↦ ground arith
]
parse_token-le capable opt_err o o' h e = ground arith

parse_loop-le :
    (capable : Bool) (ts : List Token) (o : MountOpts)
    → o.max ≤ max_minor
    → (parse_loop capable ts o).1.max ≤ max_minor
unfolding parse_loop
parse_loop-le capable [] o h = h
parse_loop-le capable (t ∷ ts) o h = go_on (parse_loop-le capable ts) (parse_token capable t o) refl
  where
    go_on :
        ((o' : MountOpts) → o'.max ≤ max_minor → (parse_loop capable ts o').1.max ≤ max_minor)
        → (p : Parsed) → parse_token capable t o ≡ p
        → (parse_loop capable (t ∷ ts) o).1.max ≤ max_minor
    go_on ih (stop e) q = rw (q, parse_loop) h
    go_on ih (go o') q = rw (q, parse_loop) (ih o' (parse_token-le capable t o o' h q))

-- Whatever the options are and however the parser ends, also in an error, the limit on devices that
-- it leaves is within the minor numbers.
pub parse-le :
    (capable : Bool) (fields : List Token) (opts : MountOpts)
    → (binderfs_parse_mount_opts capable fields opts).1.max ≤ max_minor
unfolding binderfs_parse_mount_opts
parse-le capable fields opts = parse_loop-le capable fields default_opts (omega arith)

check_keeps :
    (prev : StatsMode) (p : Ret × MountOpts)
    → p.1.max ≤ max_minor
    → (check_mode prev p).0 ≡ zero_ret
    → ((check_mode prev p).1.stats_mode ≡ prev) × ((check_mode prev p).1.max ≤ max_minor)
check_keeps prev p le ok = ground arith

check_mode-kept :
    (prev : StatsMode) (p : Ret × MountOpts)
    → p.0 ≡ zero_ret
    → (check_mode prev p).1.stats_mode ≡ prev
check_mode-kept prev p ok = ground arith

first_refused :
    (capable : Bool) (t : Token) (ts : List Token) (opts : MountOpts) (e : Errno)
    → parse_token capable t default_opts ≡ stop e
    → binderfs_remount capable (t ∷ ts) opts ≡ (err e, default_opts)
unfolding binderfs_remount parse_loop
first_refused capable t ts opts e bad =
    let loop : parse_loop capable (t ∷ ts) default_opts ≡ (err e, default_opts) =
      rw (bad, parse_loop) in
    ap (check_mode opts.stats_mode) loop

-- A remount that succeeds keeps the statistics mode and leaves a limit within the minor numbers. One
-- whose options can be parsed, but ask for another mode, fails and keeps the mode. But where the first
-- option is refused, the remount fails and yet has reset the limit and the mode to the defaults.
binderfs_remount_lem :
    (capable : Bool) (fields : List Token) (opts : MountOpts)
    → let out = binderfs_remount capable fields opts in
      let parsed = binderfs_parse_mount_opts capable fields opts in
      (out.0 ≡ zero_ret → (out.1.stats_mode ≡ opts.stats_mode) × (out.1.max ≤ max_minor))
      × (parsed.0 ≡ zero_ret → out.1.stats_mode ≡ opts.stats_mode)
      × ((t : Token) (ts : List Token) (e : Errno)
          → fields ≡ t ∷ ts
          → parse_token capable t default_opts ≡ stop e
          → out ≡ (err e, default_opts))
unfolding binderfs_remount
binderfs_remount_lem capable fields opts =
    let le = parse-le capable fields opts in
    (
      (λ ok. check_keeps opts.stats_mode (binderfs_parse_mount_opts capable fields opts) le ok),
      (λ ok. check_mode-kept opts.stats_mode (binderfs_parse_mount_opts capable fields opts) ok),
      (λ t ts e f bad. rw f (first_refused capable t ts opts e bad)),
    )
