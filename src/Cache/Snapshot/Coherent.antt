-- ===== src/Cache/Snapshot/Coherent.antt =====
-- The invariant of the memoized base: a full rebuild is pending, or an address that is not marked
-- dirty reads in the base as in layer 2, or its slot count or absence gives the next scan reason to
-- mark it.
use evm_fork_cache.Prelude.{
  ℕ, ◌≤◌, ◌<◌, ◌≡◌, refl, sym, subst, ◌∙◌, ◌⊎◌, inl, inr, false, true, Option, none, some, List,
  arith, if◌then◌else◌, Option-cases, Bool-cases, is_empty,
}
use evm_fork_cache.Prelude.Eq.{nat_eq}
use evm_fork_cache.Prelude.Map.{Map, len, get, map_option, get-collect}
use evm_fork_cache.Prelude.Set.{contains, contains-is_empty}
use evm_fork_cache.Word.{Address, U256}
use evm_fork_cache.Cache.State.{AccountInfo, EvmCache, BaseState}
use evm_fork_cache.Cache.Snapshot.{
  copy, build_base_full, code_index, len_differs, scan_storage, scan_accounts, Rebuild,
  rebuild_loop, refresh_some, refresh_full, refresh_base,
}
use evm_fork_cache.Cache.Snapshot.Refresh.{
  get-copy, len-copy-le, scan_storage-keeps, scan_accounts-keeps, scan_storage-marks,
  scan_accounts-marks, rebuild_loop-accounts, rebuild_loop-storage, rebuild_loop-lens,
}

abbrev pub Slots : Type 0
Slots = Map U256 U256

-- One address: the base's slots, the recorded count, and layer 2's slots.
pub data Tracks (built : Option Slots) (count : Option ℕ) (current : Option Slots) : Type 0 where
  absent : built ≡ none → count ≡ none → current ≡ none → Tracks built count current
  unseen : (slots : Slots) → count ≡ none → current ≡ some slots → Tracks built count current
  grown :
      (slots : Slots) (r : ℕ)
      → count ≡ some r
      → current ≡ some slots
      → r < len slots
      → Tracks built count current
  same :
      (slots old : Slots) (r : ℕ)
      → built ≡ some old
      → count ≡ some r
      → current ≡ some slots
      → r ≤ len slots
      → ((s : U256) → get s old ≡ get s slots)
      → Tracks built count current

abbrev pub read : Option Slots → U256 → Option U256
read none s = none
read (some slots) s = get s slots

abbrev pub TracksAccount : Option AccountInfo → Option AccountInfo → Type 0
TracksAccount built current = (built ≡ current) ⊎ (built ≡ none)

abbrev pub BaseTracks : EvmCache → BaseState → Address → Type 0
BaseTracks c b a =
    (contains a c.base_dirty ≡ true)
    ⊎ (Tracks (get a b.storage) (get a c.base_storage_lens) (get a c.storage)
        × TracksAccount (get a b.accounts) (get a c.accounts))

abbrev pub IsCoherent : EvmCache → Type 0
IsCoherent c =
    (c.base_full_rebuild ≡ true)
    ⊎ ((b : BaseState) → c.base ≡ some b → (a : Address) → BaseTracks c b a)

-- Tracked, and with the same reads.
abbrev Settled : Option Slots → Option ℕ → Option Slots → Type 0
Settled built count current =
    Tracks built count current × ((s : U256) → read built s ≡ read current s)

rebuilt-Settled :
    (current : Option Slots)
    → Settled (map_option copy current) (map_option (λ slots. len (copy slots)) current) current
rebuilt-Settled none = (absent refl refl refl, λ s. refl)
rebuilt-Settled (some slots) = (
  same slots (copy slots) (len (copy slots)) refl refl refl (len-copy-le slots)
      (λ s. get-copy s slots),
  λ s. get-copy s slots,
)

-- all that the scans mark
abbrev marked : EvmCache → BaseState → List Address
marked c b = scan_accounts b c.accounts (scan_storage c.base_storage_lens c.storage c.base_dirty)

len_marks :
    (c : EvmCache) (b : BaseState) (a : Address) (slots : Slots)
    → get a c.storage ≡ some slots
    → len_differs (get a c.base_storage_lens) (len slots) ≡ true
    → contains a (marked c b) ≡ true
len_marks c b a slots r d =
    scan_accounts-keeps a b c.accounts _
      (scan_storage-marks a c.base_storage_lens c.storage c.base_dirty slots r d)

len_differs-none : (n : Option ℕ) (m : ℕ) → n ≡ none → len_differs n m ≡ true
unfolding len_differs
len_differs-none n m e = rw e

len_differs-lt : (n : Option ℕ) (r m : ℕ) → n ≡ some r → r < m → len_differs n m ≡ true
unfolding len_differs
len_differs-lt n r m e l = ground arith

-- What the scans leave unmarked reads in the base as in layer 2.
storage_unmarked :
    (c : EvmCache) (b : BaseState) (a : Address)
    → contains a (marked c b) ≡ false
    → Tracks (get a b.storage) (get a c.base_storage_lens) (get a c.storage)
    → (s : U256) → read (get a b.storage) s ≡ read (get a c.storage) s
storage_unmarked c b a h (absent p q r) s = rw (p, r)
storage_unmarked c b a h (unseen slots q r) s =
    cc (len_marks c b a slots r (len_differs-none _ _ q))
storage_unmarked c b a h (grown slots k q r l) s =
    cc (len_marks c b a slots r (len_differs-lt _ k _ q l))
storage_unmarked c b a h (same slots old k p q r l e) s = rw (p, r) (e s)

accounts_unmarked :
    (c : EvmCache) (b : BaseState) (a : Address)
    → contains a (marked c b) ≡ false
    → TracksAccount (get a b.accounts) (get a c.accounts)
    → get a b.accounts ≡ get a c.accounts
accounts_unmarked c b a h (inl e) = e
accounts_unmarked c b a h (inr n) = elim (Option-cases (get a c.accounts)) [
  | inl gone ↦ n ∙ sym gone
  | inr (info, there) ↦ cc (scan_accounts-marks a b c.accounts _ info there n)
]

unmarked_dirty :
    (c : EvmCache) (b : BaseState) (a : Address)
    → contains a (marked c b) ≡ false
    → contains a c.base_dirty ≡ true
    → ⊥
unmarked_dirty c b a h d = cc (
    scan_accounts-keeps a b c.accounts _
      (scan_storage-keeps a c.base_storage_lens c.storage c.base_dirty d))

-- An address that the scans leave unmarked is settled, and its account is the base's.
unmarked_settled :
    (c : EvmCache) (b : BaseState) (a : Address)
    → BaseTracks c b a
    → contains a (marked c b) ≡ false
    → Settled (get a b.storage) (get a c.base_storage_lens) (get a c.storage)
      × (get a b.accounts ≡ get a c.accounts)
unmarked_settled c b a (inl d) h = absurd (unmarked_dirty c b a h d)
unmarked_settled c b a (inr (t, ta)) h =
    ((t, storage_unmarked c b a h t), accounts_unmarked c b a h ta)

some_injective : {x y : BaseState} → some x ≡ some y → x ≡ y
some_injective h = cc

-- A base that reads as layer 2 at every address, and is tracked.
pub record IsFresh (c : EvmCache) (b : BaseState) : Type 0 where
  pub here : c.base ≡ some b
  pub settled :
      (a : Address) → Settled (get a b.storage) (get a c.base_storage_lens) (get a c.storage)
  pub accounts_eq : (a : Address) → get a b.accounts ≡ get a c.accounts

pub IsFresh-IsCoherent : (c : EvmCache) (b : BaseState) → IsFresh c b → IsCoherent c
IsFresh-IsCoherent c b f = inr λ b' e a.
    subst (λ x. BaseTracks c x a) (some_injective (sym f.here ∙ e))
      (inr ((f.settled a).0, inl (f.accounts_eq a)))

refresh_full-IsFresh : (c : EvmCache) → (b : BaseState) × IsFresh (refresh_full c) b
unfolding refresh_full build_base_full
refresh_full-IsFresh c = (
  (build_base_full c.layers).0,
  record {
    here = refl;
    settled = λ a.
        rw (get-collect copy a c.storage, get-collect (λ slots. len (copy slots)) a c.storage)
          (rebuilt-Settled (get a c.storage));
    accounts_eq = λ a. get-copy a c.accounts;
  },
)

-- the base that case 4 builds
abbrev next_base : EvmCache → BaseState → BaseState
next_base c b =
    let r =
      rebuild_loop c.layers (marked c b)
        (record { accounts = b.accounts; storage = b.storage; lens = c.base_storage_lens }) in
    record { accounts = r.accounts; storage = r.storage; code_by_hash = code_index r.accounts }

module _ (c : EvmCache) (b : BaseState) (tracks : (a : Address) → BaseTracks c b a) where
  next_settled :
      (a : Address)
      → let r =
          rebuild_loop c.layers
            (marked c b)
            (record { accounts = b.accounts; storage = b.storage; lens = c.base_storage_lens }) in
        Settled (get a r.storage) (get a r.lens) (get a c.storage)
        × (get a r.accounts ≡ get a c.accounts)
  next_settled a = elim (Bool-cases (contains a (marked c b))) [
    | inl dirty ↦
        rw (storage_eq, lens_eq, accounts_eq, dirty) (rebuilt-Settled (get a c.storage), refl)
    | inr clean ↦
        rw (storage_eq, lens_eq, accounts_eq, clean) (unmarked_settled c b a (tracks a) clean)
  ]
    where
      start : Rebuild
      start = record { accounts = b.accounts; storage = b.storage; lens = c.base_storage_lens }

      storage_eq :
          get a (rebuild_loop c.layers (marked c b) start).storage
          ≡ (if contains a (marked c b) then map_option copy (get a c.storage) else get a b.storage)
      storage_eq = rebuild_loop-storage c.layers a (marked c b) start

      lens_eq : get a (rebuild_loop c.layers (marked c b) start).lens ≡ (
          if contains a (marked c b)
          then map_option (λ slots. len (copy slots)) (get a c.storage)
          else get a c.base_storage_lens)
      lens_eq = rebuild_loop-lens c.layers a (marked c b) start

      accounts_eq :
          get a (rebuild_loop c.layers (marked c b) start).accounts
          ≡ (if contains a (marked c b) then get a c.accounts else get a b.accounts)
      accounts_eq = rebuild_loop-accounts c.layers a (marked c b) start

  -- where nothing is marked the base stays
  unchanged-IsFresh : c.base ≡ some b → is_empty (marked c b) ≡ true → IsFresh c b
  unchanged-IsFresh e none_marked = record {
    here = e;
    settled = λ a. (unmarked_settled c b a (tracks a) (contains-is_empty a _ none_marked)).0;
    accounts_eq = λ a. (unmarked_settled c b a (tracks a) (contains-is_empty a _ none_marked)).1;
  }

  refresh_some-IsFresh : c.base ≡ some b → (b' : BaseState) × IsFresh (refresh_some c b) b'
  unfolding refresh_some
  refresh_some-IsFresh e = elim (Bool-cases (is_empty (marked c b))) [
    | inl none_marked ↦ rw none_marked (b, unchanged-IsFresh e none_marked)
    | inr some_marked ↦ rw some_marked (
      next_base c b,
      record {
        here = refl;
        settled = λ a. (next_settled a).0;
        accounts_eq = λ a. (next_settled a).1;
      },
    )
  ]

tracks_of :
    (c : EvmCache) (b : BaseState)
    → IsCoherent c
    → c.base ≡ some b
    → c.base_full_rebuild ≡ false
    → (a : Address) → BaseTracks c b a
tracks_of c b (inl full) set partial a = cc
tracks_of c b (inr tracks) set partial a = tracks b set a

-- From a coherent memo `refresh_base` makes a base that reads as layer 2.
pub refresh_base-IsFresh :
    (c : EvmCache) → IsCoherent c → (b : BaseState) × IsFresh (refresh_base c) b
unfolding refresh_base
refresh_base-IsFresh c h = elim (Option-cases c.base) [
  | inl unset ↦ rw (unset, refresh_base) (refresh_full-IsFresh c)
  | inr (b, set) ↦
      rw (set, refresh_base)
        (elim (Bool-cases c.base_full_rebuild) [
          | inl full ↦ simp full (refresh_full-IsFresh c)
          | inr partial ↦ simp partial (refresh_some-IsFresh c b (tracks_of c b h set partial) set)
        ])
]

pub refresh_base-layers :
    (c : EvmCache)
    → ((refresh_base c).overlay ≡ c.overlay)
      × ((refresh_base c).storage ≡ c.storage)
      × ((refresh_base c).accounts ≡ c.accounts)
unfolding refresh_base refresh_full refresh_some
refresh_base-layers c = ground arith
