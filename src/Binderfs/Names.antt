-- ===== src/Binderfs/Names.antt =====
-- The list of device names of binderfs.c: the loop over `binder_devices_param` that init_binderfs and
-- binderfs_fill_super share.
pub mod Laws
use droid_kernal.Prelude.{
  ℕ, zero, suc, ◌+◌, ◌-◌, Bool, Option, none, some, List, [], ◌∷◌, ◌++◌, ◌==◌, ltb, if◌then◌else◌,
  length, take, drop,
}
use droid_kernal.Binder.Types.{Ret, zero_ret, err, e_2big}

abbrev pub comma : ℕ
comma = 44

-- strcspn(name, ",")
unfoldable pub strcspn : List ℕ → ℕ
strcspn [] = 0
strcspn (c ∷ cs) = let rest = suc (strcspn cs) in if c == comma then 0 else rest

-- `if (*name == ',') name++`
abbrev pub skip_comma : List ℕ → List ℕ
skip_comma [] = []
skip_comma (c ∷ cs) = if c == comma then cs else c ∷ cs

abbrev pub rest_of : List ℕ → List ℕ
rest_of name = skip_comma (drop (strcspn name) name)

-- The names that the loop passes, in order, on fuel; `none` is out of fuel.
unfoldable pub device_names : ℕ → List ℕ → Option (List (List ℕ))
device_names zero name = none
device_names (suc fuel) name =
    let len = strcspn name in
    if len == 0 then some [] else elim (device_names fuel (rest_of name)) [
      | none ↦ none
      | some names ↦ some (take len name ∷ names)
    ]

-- BINDERFS_MAX_NAME
abbrev pub max_name : ℕ
max_name = 255

-- The check of all names in init_binderfs.
unfoldable pub check_names : List (List ℕ) → Ret
check_names [] = zero_ret
check_names (n ∷ ns) = if ltb max_name (length n) then err e_2big else check_names ns
