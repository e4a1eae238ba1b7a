-- ===== src/Binderfs/Options.antt =====
-- The mount options of binderfs.c: binderfs_parse_mount_opts, binderfs_remount and
-- binderfs_show_mount_opts.
pub mod Laws
use droid_kernal.Prelude.{
  ℕ, ◌+◌, ◌^◌, Bool, true, false, Option, none, some, List, [], ◌∷◌, ◌++◌, ◌==◌, ltb, leb,
  if◌then◌else◌, ◌&&◌, not,
}
use droid_kernal.Binder.Types.{Ret, zero_ret, err, Errno, e_inval, e_nomem}

-- BINDERFS_MAX_MINOR, with the kernel's 20 bits for a minor number.
abbrev pub max_minor : ℕ
max_minor = 2 ^ 20

pub data StatsMode : Type 0 where
  stats_none stats_global : StatsMode

-- struct binderfs_mount_opts; `max` is the 32-bit pattern of an int.
pub record MountOpts : Type 0 where
  pub max : ℕ
  pub stats_mode : StatsMode

abbrev pub default_opts : MountOpts
default_opts = record { max = max_minor; stats_mode = stats_none }

-- One field between commas as match_token, match_int and match_strdup read it: an empty field, the
-- option `max` with the bits of its number if it has one, the option `stats` with the copy of its
-- argument if there was memory for it, or anything else.
pub data Token : Type 0 where
  empty : Token
  opt_max : Option ℕ → Token
  opt_stat_mode : Option (List ℕ) → Token
  opt_err : Token

-- strcmp(a, b) == 0
unfoldable pub str_eq : List ℕ → List ℕ → Bool
str_eq [] [] = true
str_eq [] (y ∷ ys) = false
str_eq (x ∷ xs) [] = false
str_eq (x ∷ xs) (y ∷ ys) = let rest = str_eq xs ys in if x == y then rest else false

-- "global"
abbrev pub global : List ℕ
global = 103 ∷ 108 ∷ 111 ∷ 98 ∷ 97 ∷ 108 ∷ []

-- What one option does: an error, or the options from then on. `capable` is CAP_SYS_ADMIN. A negative
-- number is above the limit as a bit pattern.
pub data Parsed : Type 0 where
  stop : Errno → Parsed
  go : MountOpts → Parsed

unfoldable pub parse_token : Bool → Token → MountOpts → Parsed
unfolding str_eq
parse_token capable empty o = go o
parse_token capable (opt_max none) o = stop e_inval
parse_token capable (opt_max (some n)) o =
    if ltb max_minor n then stop e_inval else go (record o { max = n })
parse_token capable (opt_stat_mode arg) o =
    if capable
    then elim arg [
      | none ↦ stop e_nomem
      | some stats ↦
          if str_eq stats global then go (record o { stats_mode = stats_global }) else stop e_inval
    ]
    else stop e_inval
parse_token capable opt_err o = stop e_inval

-- The loop over the fields; the options change in place, so they show also in an error.
unfoldable pub parse_loop : Bool → List Token → MountOpts → Ret × MountOpts
parse_loop capable [] o = (zero_ret, o)
parse_loop capable (t ∷ ts) o = elim (parse_token capable t o) [
  | stop e ↦ (err e, o)
  | go o' ↦ parse_loop capable ts o'
]

unfoldable pub binderfs_parse_mount_opts : Bool → List Token → MountOpts → Ret × MountOpts
binderfs_parse_mount_opts capable fields opts = parse_loop capable fields default_opts

abbrev pub same_mode : StatsMode → StatsMode → Bool
same_mode stats_none stats_none = true
same_mode stats_none stats_global = false
same_mode stats_global stats_none = false
same_mode stats_global stats_global = true

abbrev pub check_mode : StatsMode → Ret × MountOpts → Ret × MountOpts
check_mode prev (err e, o) = (err e, o)
check_mode prev (zero_ret, o) =
    if same_mode prev o.stats_mode
    then (zero_ret, o)
    else (err e_inval, record o { stats_mode = prev })

unfoldable pub binderfs_remount : Bool → List Token → MountOpts → Ret × MountOpts
unfolding binderfs_parse_mount_opts
binderfs_remount capable fields opts =
    check_mode opts.stats_mode (binderfs_parse_mount_opts capable fields opts)

abbrev stats_shown : StatsMode → List Token
stats_shown stats_none = []
stats_shown stats_global = opt_stat_mode (some global) ∷ []

-- The options that are printed, in order, as the parser would read them; `max` is compared without a
-- sign.
unfoldable pub binderfs_show_mount_opts : MountOpts → List Token
binderfs_show_mount_opts o =
    if leb o.max max_minor
    then opt_max (some o.max) ∷ stats_shown o.stats_mode
    else stats_shown o.stats_mode
