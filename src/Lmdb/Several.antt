-- ===== src/Lmdb/Several.antt =====
-- A concrete environment with several transactions at a time, one of which may write.
use fine_db.Prelude.{
  ℕ, zero, suc, ◌+◌, ◌≡◌, ◌≢◌, ◌∙◌, refl, ap, Bool, true, false, not, ◌&&◌, ◌||◌, Option,
  Option-cases, inl, inr, none, some, List, [], ◌∷◌, ◌++◌, length, arith, if◌then◌else◌,
}
use fine_db.Lmdb.{Name, Store, View, Lmdb, IsLmdb, is_live, insert, erase, clear}
use fine_db.Lmdb.Sample.{lookup, present}
use fine_db.Lmdb.Snapshot.{IsSnapshot}

-- Each transaction has a slot, which is empty once it has ended.
abbrev Slots : Type 0
Slots = List (Option View)

abbrev slot : Slots → ℕ → Option View
slot [] i = none
slot (o ∷ os) zero = o
slot (o ∷ os) (suc i) = slot os i

abbrev fill : ℕ → Option View → Slots → Slots
fill i o [] = []
fill zero o (p ∷ os) = o ∷ os
fill (suc i) o (p ∷ os) = p ∷ fill i o os

abbrev live_count : Slots → ℕ
live_count [] = 0
live_count (none ∷ os) = live_count os
live_count (some v ∷ os) = suc (live_count os)

abbrev has_writer : Slots → Bool
has_writer [] = false
has_writer (none ∷ os) = has_writer os
has_writer (some v ∷ os) = not v.readonly || has_writer os

pub slot-fill :
    (i : ℕ) (o : Option View) (os : Slots) → is_live (slot os i) ≡ true → slot (fill i o os) i ≡ o
slot-fill i o [] h = ground arith
slot-fill zero o (p ∷ os) h = refl
slot-fill (suc i) o (p ∷ os) h = slot-fill i o os h

pub slot-fill_other :
    (i j : ℕ) (o : Option View) (os : Slots) → i ≢ j → slot (fill i o os) j ≡ slot os j
slot-fill_other i j o [] h = refl
slot-fill_other zero zero o (p ∷ os) h = absurd (h refl)
slot-fill_other zero (suc j) o (p ∷ os) h = refl
slot-fill_other (suc i) zero o (p ∷ os) h = refl
slot-fill_other (suc i) (suc j) o (p ∷ os) h = slot-fill_other i j o os (λ same. h (ap suc same))

pub live_count-fill_ends :
    (i : ℕ) (os : Slots)
    → is_live (slot os i) ≡ true
    → live_count (fill i none os) + 1 ≡ live_count os
live_count-fill_ends i [] h = ground arith
live_count-fill_ends zero (none ∷ os) h = ground arith
live_count-fill_ends zero (some v ∷ os) h = omega arith
live_count-fill_ends (suc i) (none ∷ os) h = live_count-fill_ends i os h
live_count-fill_ends (suc i) (some v ∷ os) h = omega (arith, live_count-fill_ends i os h)

pub live_count-fill_keeps :
    (i : ℕ) (w : View) (os : Slots)
    → is_live (slot os i) ≡ true
    → live_count (fill i (some w) os) ≡ live_count os
live_count-fill_keeps i w [] h = ground arith
live_count-fill_keeps zero w (none ∷ os) h = ground arith
live_count-fill_keeps zero w (some v ∷ os) h = refl
live_count-fill_keeps (suc i) w (none ∷ os) h = live_count-fill_keeps i w os h
live_count-fill_keeps (suc i) w (some v ∷ os) h = omega (arith, live_count-fill_keeps i w os h)

pub slot-new : (o : Option View) (os : Slots) → slot (os ++ o ∷ []) (length os) ≡ o
slot-new o [] = refl
slot-new o (p ∷ os) = slot-new o os

pub slot-none : (os : Slots) → slot os (length os) ≡ none
slot-none [] = refl
slot-none (p ∷ os) = slot-none os

pub slot-old :
    (o : Option View) (os : Slots) (i : ℕ) (v : View)
    → slot os i ≡ some v
    → slot (os ++ o ∷ []) i ≡ some v
slot-old o [] i v h = absurd (ground (arith, h))
slot-old o (p ∷ os) zero v h = h
slot-old o (p ∷ os) (suc i) v h = slot-old o os i v h

pub live_count-new : (v : View) (os : Slots) → live_count (os ++ some v ∷ []) ≡ live_count os + 1
live_count-new v [] = refl
live_count-new v (none ∷ os) = live_count-new v os
live_count-new v (some w ∷ os) = omega (arith, live_count-new v os)

pub record Disks : Type 0 where
  pub store : Store
  pub slots : Slots

abbrev begin : Bool → Disks → Option ℕ × Disks
begin r e = if not r && has_writer e.slots then (none, e) else (
  some (length e.slots),
  record e { slots = e.slots ++ some (record { readonly = r; store = e.store }) ∷ [] },
)

abbrev commit_view : ℕ → Disks → Option View → Bool × Disks
commit_view t e none = (false, e)
commit_view t e (some v) =
    (true, record { slots = fill t none e.slots; store = if v.readonly then e.store else v.store })

abbrev change_view : ℕ → (Store → Bool) → (Store → Store) → Disks → Option View → Bool × Disks
change_view t test f e none = (false, e)
change_view t test f e (some v) =
    if not v.readonly && test v.store
    then (true, record e { slots = fill t (some (record v { store = f v.store })) e.slots })
    else (false, e)

abbrev change : ℕ → (Store → Bool) → (Store → Store) → Disks → Bool × Disks
change t test f e = change_view t test f e (slot e.slots t)

abbrev pub several : Lmdb
several = record {
  Env = Disks;
  Txn = ℕ;
  Dbi = Name;
  mdb_txn_begin = begin;
  mdb_txn_commit = λ t e. commit_view t e (slot e.slots t);
  mdb_txn_abort = λ t e. record e { slots = fill t none e.slots };
  mdb_dbi_open = λ t n c e. (some n, e);
  mdb_dbi_close = λ d e. e;
  mdb_put = λ t d once k x e. change t (λ s. not (once && present d k s)) (insert d k x) e;
  mdb_del = λ t d k e. change t (present d k) (erase d k) e;
  mdb_get = λ t d k e. lookup d k (slot e.slots t);
  mdb_drop = λ t d e. change t (λ s. true) (clear d) e;
  mdb_cursor = λ t d e. none;
}

-- What every change in a transaction keeps.
pub change-keeps :
    (t : ℕ) (test : Store → Bool) (f : Store → Store) (e : Disks)
    → ((change t test f e).1.store ≡ e.store)
      × (live_count (change t test f e).1.slots ≡ live_count e.slots)
      × (is_live (slot (change t test f e).1.slots t) ≡ is_live (slot e.slots t))
change-keeps t test f e = elim (Option-cases (slot e.slots t)) [
  | inl ended ↦ ground (arith, ended)
  | inr (v, seen) ↦
      let w : View = record v { store = f v.store } in
      let live : is_live (slot e.slots t) ≡ true = ap is_live seen in
      ground (
        arith,
        seen,
        live,
        live_count-fill_keeps t w e.slots live,
        slot-fill t (some w) e.slots live,
      )
]

pub change-true :
    (t : ℕ) (test : Store → Bool) (f : Store → Store) (e : Disks) (v : View)
    → slot e.slots t ≡ some v
    → (change t test f e).0 ≡ true
    → (v.readonly ≡ false)
      × (test v.store ≡ true)
      × (slot (change t test f e).1.slots t ≡ some (record v { store = f v.store }))
change-true t test f e v seen done =
    let w : View = record v { store = f v.store } in
    let live : is_live (slot e.slots t) ≡ true = ap is_live seen in
    ground (arith, seen, slot-fill t (some w) e.slots live)

pub change-others :
    (t u : ℕ) (test : Store → Bool) (f : Store → Store) (e : Disks)
    → u ≢ t
    → slot (change u test f e).1.slots t ≡ slot e.slots t
change-others t u test f e other = elim (Option-cases (slot e.slots u)) [
  | inl ended ↦ ground (arith, ended)
  | inr (v, seen) ↦
      let w : View = record v { store = f v.store } in
      ground (arith, seen, slot-fill_other u t (some w) e.slots other)
]

abbrev pub several-IsLmdb : IsLmdb several
several-IsLmdb = record {
  committed = λ e. e.store;
  view = λ e t. slot e.slots t;
  db_name = λ e d. some d;
  open_txns = λ e. live_count e.slots;
  begin_some = λ r e t h. ground (
    arith,
    slot-new (some (record { readonly = r; store = e.store })) e.slots,
    live_count-new (record { readonly = r; store = e.store }) e.slots,
  );
  begin_none = λ r e h. ground arith;
  commit_ends =
      λ t e h. ground (arith, slot-fill t none e.slots h, live_count-fill_ends t e.slots h);
  commit_true = λ t e v h w c. ground (arith, h);
  commit_false = λ t e h c. ground arith;
  abort_live = λ t e h. (refl, slot-fill t none e.slots h, live_count-fill_ends t e.slots h);
  open_keeps = λ t n c e. (refl, refl, refl);
  open_default = λ t c e. refl;
  open_existing = λ t n e. refl;
  open_some = λ t n c e d h. ground arith;
  close_keeps = λ d e. (refl, refl);
  close_live = λ d e t. refl;
  close_main = λ d e t h. refl;
  close_readonly = λ d e t v h w. h;
  put_keeps = λ t d once k x e.
      let r = change-keeps t (λ s. not (once && present d k s)) (insert d k x) e in
      (r.0, r.1, refl, r.2);
  put_true = λ t d once k x e v n h q c.
      ground (arith, q, change-true t (λ s. not (once && present d k s)) (insert d k x) e v h c);
  put_readonly = λ t d once k x e v h q. ground (arith, h, q);
  del_keeps =
      λ t d k e. let r = change-keeps t (present d k) (erase d k) e in (r.0, r.1, refl, r.2);
  del_true =
      λ t d k e v n h q c. ground (arith, q, change-true t (present d k) (erase d k) e v h c);
  drop_keeps = λ t d e. let r = change-keeps t (λ s. true) (clear d) e in (r.0, r.1, refl, r.2);
  get_found = λ t d k x e v n h q c. ground (arith, h);
  get_not_found = λ t d k e v n h q c. ground (arith, h);
}

-- A handle is here of no concern to any transaction, so that each is as one that has opened none.
pub several-IsSnapshot : IsSnapshot several several-IsLmdb
several-IsSnapshot = record {
  unopened = λ e t. true;
  begin_fresh = λ r e t h. ground (arith, slot-none e.slots);
  begin_unopened = λ r e t h. refl;
  begin_others = λ r e t v q. (
    ground (arith, slot-old (some (record { readonly = r; store = e.store })) e.slots t v q.0),
    refl,
  );
  commit_others =
      λ t u e v h other q. (ground (arith, q.0, slot-fill_other u t none e.slots other), refl);
  abort_others = λ t u e v h other q. (slot-fill_other u t none e.slots other ∙ q.0, refl);
  open_others = λ t u n c e v other q. q;
  put_others = λ t u d once k x e v other q.
      (change-others t u (λ s. not (once && present d k s)) (insert d k x) e other ∙ q.0, refl);
  del_others =
      λ t u d k e v other q. (change-others t u (present d k) (erase d k) e other ∙ q.0, refl);
  close_others = λ t d e v q. q;
}
