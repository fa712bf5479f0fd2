-- ===== src/Service/Progress.antt =====
-- How long conversations with the server last, whatever the order in which its threads work.
use fine_db.Prelude.{
  update, ℕ, suc, ◌+◌, ◌≤◌, ◌≡◌, refl, ap, ◌∙◌, subst, Bool, Bool-cases, true, false, length, ◌==◌,
  ==_iff, arith, inl, inr, if◌then◌else◌,
}
use fine_db.Lmdb.{IsLmdb}
use fine_db.Dynabin.{IsDynabin, HasMemory}
use fine_db.Snappy.{IsSnappy}
use fine_db.Database.Atomic.{CommitsSucceed}
use fine_db.Server.{Libraries}
use fine_db.Service.{server_reply, value_reply}
use fine_db.Service.Concurrent.{
  Conversation, Shared, Advances, one_answered, get_refused, client_left, client_cut,
  change_written, answered_one, shut, get_torn, mover, World, HappenAll, no_round, round_more,
  is_by, rounds, says,
}
use fine_db.Service.Turns.{Represents}
use fine_db.Service.Linearizes.{Happens-Follows}

-- How many rounds a conversation can still take.
abbrev pub waits : Conversation → ℕ
waits c = if c.is_open then suc (length c.left) else 0

abbrev due : ℕ → ℕ → ℕ
due i j = if j == i then 1 else 0

-- A conversation that goes on has less before it, and the others as much as before.
moved_waits :
    (i j : ℕ) (c : Conversation) (talks : ℕ → Conversation)
    → waits c + 1 ≤ waits (talks j)
    → due i j + waits (update j c talks i) ≤ waits (talks i)
moved_waits i j c talks less =
    either (j == i) (λ same. ap (λ (k : ℕ). waits (talks k)) ((==_iff j i).0 same))
  where
    either :
        (x : Bool)
        → (x ≡ true → waits (talks j) ≡ waits (talks i))
        → (if x then 1 else 0) + waits (if x then c else talks i) ≤ waits (talks i)
    either true same = omega (arith, less, same refl)
    either false same = omega arith

-- A conversation that is to wait as long as before.
kept_waits :
    (i j : ℕ) (c : Conversation) (talks : ℕ → Conversation)
    → waits c ≡ waits (talks j)
    → waits (update j c talks i) ≤ waits (talks i)
kept_waits i j c talks same =
    either (j == i) (λ here. ap (λ (k : ℕ). waits (talks k)) ((==_iff j i).0 here))
  where
    either :
        (x : Bool)
        → (x ≡ true → waits (talks j) ≡ waits (talks i))
        → waits (if x then c else talks i) ≤ waits (talks i)
    either true here = omega (arith, same, here refl)
    either false here = omega arith

open_waits :
    (c d : Conversation) (n : ℕ)
    → c.is_open ≡ true
    → length c.left ≡ n
    → waits d ≤ n
    → waits d + 1 ≤ waits c
open_waits c d n alive has less = ground (arith, alive, has, less)

shut_waits : (c d : Conversation) → c.is_open ≡ true → d.is_open ≡ false → waits d + 1 ≤ waits c
shut_waits c d alive shut = ground (arith, alive, shut)

waits_most : (c : Conversation) → waits c ≤ suc (length c.left)
waits_most c = ground arith

waits_open : (c : Conversation) → c.is_open ≡ true → 1 ≤ waits c
waits_open c alive = ground (arith, alive)

Advances-waits :
    (i : ℕ) {b c : Shared} (step : Advances b c)
    → is_by i (mover step) + waits (c.talks i) ≤ waits (b.talks i)
Advances-waits i {b} {c} (one_answered j r rs out contents alive is_left step) =
    let d = answered_one rs out contents.1 (b.talks j) in
    moved_waits i j d b.talks
      (open_waits (b.talks j) d (suc (length rs)) alive (ap length is_left) (ground (arith, alive)))
Advances-waits i {b} {c} (get_torn j key x torn rs alive is_left there same) =
    let d = answered_one rs (value_reply torn) (b.talks j).pending (b.talks j) in
    moved_waits i j d b.talks
      (open_waits (b.talks j) d (suc (length rs)) alive (ap length is_left) (ground (arith, alive)))
Advances-waits i {b} {c} (get_refused j key rs alive is_left) =
    let d = says server_reply (shut (b.talks j)) in
    moved_waits i j d b.talks (shut_waits (b.talks j) d alive refl)
Advances-waits i {b} {c} (client_left j alive is_left whole) =
    moved_waits i j (shut (b.talks j)) b.talks
      (shut_waits (b.talks j) (shut (b.talks j)) alive refl)
Advances-waits i {b} {c} (client_cut j alive is_left lost) =
    let d = says server_reply (shut (b.talks j)) in
    moved_waits i j d b.talks (shut_waits (b.talks j) d alive refl)
Advances-waits i {b} {c} (change_written j msg rest done first) =
    omega (arith, kept_waits i j (record (b.talks j) { pending = rest }) b.talks refl)

module _ (lib : Libraries) (laws : IsLmdb lib.lmdb) (doc : IsDynabin lib.dynabin)
    (memory : HasMemory lib.dynabin) where
  run_waits :
      IsSnappy lib.snappy
      → CommitsSucceed lib.lmdb laws
      → (i : ℕ) (w w' : World lib) (b : Shared) → Represents lib laws doc memory w b
      → (run : HappenAll lib w w')
      → (b' : Shared) × Represents lib laws doc memory w' b'
        × (rounds lib i run + waits (b'.talks i) ≤ waits (b.talks i))
  run_waits zip good i w w' b rep no_round = (b, rep, omega arith)
  run_waits zip good i w w' b rep (round_more before last) =
      let (c, rep_c, less) = run_waits zip good i w _ b rep before in
      let (d, step, who, tear, rep_d) = Happens-Follows lib laws doc memory zip good last rep_c in
      let now =
        subst (λ (x : _). is_by i x + waits (d.talks i) ≤ waits (c.talks i)) who
          (Advances-waits i step) in
      (d, rep_d, omega (arith, less, now))

  -- Where commits succeed: any number of connection threads, each with a conversation that is outside of
  -- transactions and in the default database, on whose connection nothing fails, and each with its own
  -- pipe to the writer thread, work on one environment, with the writer thread, all rounds in any order,
  -- torn ones included. In any such run a
  -- connection thread has at most one round more than its client has whole requests; and when it has had
  -- so many its connection has ended, whatever the other threads did in between.
  pub conversation_ends :
      IsSnappy lib.snappy
      → CommitsSucceed lib.lmdb laws
      → (i : ℕ) (w w' : World lib) (b : Shared) → Represents lib laws doc memory w b
      → (run : HappenAll lib w w')
      → (rounds lib i run ≤ suc (length (b.talks i).left))
        × (rounds lib i run ≡ suc (length (b.talks i).left) → (w'.threads i).is_open ≡ false)
  conversation_ends zip good i w w' b rep run =
      let (b', rep', less) = run_waits zip good i w w' b rep run in
      let at_i = rep'.stands i in
      let most = waits_most (b.talks i) in
      (
        omega (arith, less, most),
        λ used. elim (Bool-cases (b'.talks i).is_open) [
          | inl alive ↦ absurd (omega (arith, less, most, used, waits_open (b'.talks i) alive))
          | inr shut ↦ at_i.same_open ∙ shut
        ],
      )
