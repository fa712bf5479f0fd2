-- ===== src/Command/Cut.antt =====
-- Requests that do not arrive whole: what the handlers do when the client's bytes end, or the peer
-- closes, in the middle of one.
use fine_db.Prelude.{
  ◌^◌, ◌<◌, ◌≡◌, ◌≢◌, refl, ◌⊎◌, inl, inr, Bool, false, none, some, List, [], ◌∷◌, ◌++◌, Bytes,
  length, arith,
}
use fine_db.Yerr.{Yerr, yeio}
use fine_db.Exec.{◌>>=◌, label}
use fine_db.Wire.{htons, htonl, length-htons, length-htonl, ntohs-htons, ntohl-htonl}
use fine_db.Dynabin.{IsDynabin, HasMemory}
use fine_db.Protocol.{server}
use fine_db.Socket.{Recv}
use fine_db.Server.{Libraries, State, M, read, server_error}
use fine_db.Server.Reading.{unread, taken, read-front, read-short, read-only}
use fine_db.Server.Sending.{
  IsHealthy, server_error-healthy, replied, response, taken-IsHealthy, ymalloc-healthy,
}
use fine_db.Command.Reply.{Handler, read_key}
use fine_db.Command.Get.{command_get}
use fine_db.Command.Del.{command_del}
use fine_db.Command.Put.{command_put, read_value, read_block}

-- Where bytes `a ++ rest` end early: in `a`, or behind it.
pub where_cut :
    (a rest u missing : Bytes)
    → u ++ missing ≡ a ++ rest
    → (length u < length a) ⊎ ((part : Bytes) × (u ≡ a ++ part) × (part ++ missing ≡ rest))
where_cut [] rest u missing h = inr (u, refl, h)
where_cut (x ∷ a) rest [] missing h = inl (omega arith)
where_cut (x ∷ a) rest (y ∷ u) missing h = elim (where_cut a rest u missing (ground (arith, h))) [
  | inl short ↦ inl (omega arith)
  | inr (part, same, left) ↦ inr (part, ground (arith, same), left)
]

module _ (lib : Libraries) where
  -- A part of a handler jumps to its error label after reads only.
  abbrev pub Breaks : {A : Type 0} → M lib A → State lib → Type 0
  Breaks m s = (b : lib.Buffer) × (rs : List Recv) × (m s ≡ (none, taken lib s b rs))

  -- A part of a handler has read its field, and `part` of the rest is there.
  abbrev pub Passes : {A : Type 0} → M lib A → State lib → A → Bytes → Bytes → Type 0
  Passes m s a missing rest =
      (part : Bytes) × (b : lib.Buffer) × (rs : List Recv) × (m s ≡ (some a, taken lib s b rs))
      × (unread lib (taken lib s b rs) ≡ part)
      × (part ++ missing ≡ rest)

module _ (lib : Libraries) (doc : IsDynabin lib.dynabin) (memory : HasMemory lib.dynabin) where
  pub read-cut :
      (xs rest missing : Bytes) (s : State lib)
      → IsHealthy lib s
      → unread lib s ++ missing ≡ xs ++ rest
      → Breaks lib (read lib (length xs)) s ⊎ Passes lib (read lib (length xs)) s xs missing rest
  read-cut xs rest missing s h front = elim (where_cut xs rest (unread lib s) missing front) [
    | inl short ↦
        let (b, rs, same) = read-only lib (length xs) s in
        inl (b, rs, ground (arith, same, read-short lib doc memory (length xs) s short))
    | inr (part, there, left) ↦
        let (b, rs, ran, behind) = read-front lib doc memory xs part s h.connected there in
        inr (part, b, rs, ran, behind, left)
  ]

  pub read_key-cut :
      (key rest missing : Bytes) (s : State lib)
      → IsHealthy lib s
      → length key < 2 ^ 16
      → unread lib s ++ missing ≡ htons (length key) ++ (key ++ rest)
      → Breaks lib (read_key lib) s ⊎ Passes lib (read_key lib) s key missing rest
  unfolding read_key ◌>>=◌
  read_key-cut key rest missing s h short front =
      elim (read-cut (htons (length key)) (key ++ rest) missing s h front) [
        | inl (b, rs, gone) ↦ inl (b, rs, ground (arith, gone, length-htons (length key)))
        | inr (part, b1, rs1, ran1, there, left1) ↦
            let s1 = taken lib s b1 rs1 in
            elim (read-cut key rest missing s1 (taken-IsHealthy lib b1 rs1 h) (rw there left1)) [
              | inl (b, rs, gone) ↦ inl (
                b,
                rs,
                ground
                    (arith, ran1, gone, length-htons (length key), ntohs-htons (length key) short),
              )
              | inr (more, b, rs, ran, behind, left) ↦ inr (
                more,
                b,
                rs,
                ground (
                  arith,
                  ran1,
                  ran,
                  length-htons (length key),
                  ntohs-htons (length key) short,
                  ymalloc-healthy lib (taken lib s b rs) h.memory,
                ),
                behind,
                left,
              )
            ]
      ]

  read_block-cut :
      (value rest missing : Bytes) (s : State lib)
      → IsHealthy lib s
      → unread lib s ++ missing ≡ value ++ rest
      → Breaks lib (read_block lib (length value)) s
        ⊎ Passes lib (read_block lib (length value)) s value missing rest
  unfolding read_block ◌>>=◌
  read_block-cut [] rest missing s h front = inr (unread lib s, s.buff, s.recvs, refl, refl, front)
  read_block-cut (v ∷ vs) rest missing s h front = elim (read-cut (v ∷ vs) rest missing s h front) [
    | inl (b, rs, gone) ↦ inl (b, rs, ground (arith, gone))
    | inr (part, b, rs, ran, behind, left) ↦ inr (
      part,
      b,
      rs,
      ground (arith, ran, ymalloc-healthy lib (taken lib s b rs) h.memory),
      behind,
      left,
    )
  ]

  read_value-cut :
      (value rest missing : Bytes) (s : State lib)
      → IsHealthy lib s
      → length value < 2 ^ 32
      → unread lib s ++ missing ≡ htonl (length value) ++ (value ++ rest)
      → Breaks lib (read_value lib) s ⊎ Passes lib (read_value lib) s value missing rest
  unfolding read_value ◌>>=◌
  read_value-cut value rest missing s h short front =
      let fits = ntohl-htonl (length value) short in
      elim (read-cut (htonl (length value)) (value ++ rest) missing s h front) [
        | inl (b, rs, gone) ↦ inl (b, rs, ground (arith, gone, length-htonl (length value)))
        | inr (part, b1, rs1, ran1, there, left1) ↦
            let s1 = taken lib s b1 rs1 in
            elim (read_block-cut value rest missing s1 (taken-IsHealthy lib b1 rs1 h)
              (rw there left1)) [
                | inl (b, rs, gone) ↦
                    inl (b, rs, ground (arith, ran1, gone, length-htonl (length value), fits))
                | inr (more, b, rs, ran, behind, left) ↦ inr (
                  more,
                  b,
                  rs,
                  ground (arith, ran1, ran, length-htonl (length value), fits),
                  behind,
                  left,
                )
              ]
      ]

  -- A handler gives up: RESP_ERR_SERVER, and nothing else but reads.
  abbrev pub GivesUp : Handler lib → Bool → Bool → Bool → State lib → Type 0
  GivesUp handler sync compress serialized s =
      (b : lib.Buffer) × (rs : List Recv) × (handler sync compress serialized s
        ≡ (yeio, replied lib (taken lib s b rs) (response lib server false false none)))

  label-cut :
      (m : M lib Yerr) (s : State lib)
      → IsHealthy lib s
      → Breaks lib m s
      → (b : lib.Buffer) × (rs : List Recv) × (label m (server_error lib) s
          ≡ (yeio, replied lib (taken lib s b rs) (response lib server false false none)))
  unfolding label
  label-cut m s h (b, rs, gone) = (
    b,
    rs,
    ground (arith, gone, server_error-healthy lib (taken lib s b rs) (taken-IsHealthy lib b rs h)),
  )

  -- Nothing is lost of a request whose fields are all there.
  not_lost : (part missing : Bytes) → missing ≢ [] → part ++ missing ≢ []
  not_lost [] missing lost none_left = lost none_left
  not_lost (x ∷ part) missing lost none_left = absurd (ground arith)

  pub command_del-cut :
      (sync compress serialized : Bool) (key missing : Bytes) (s : State lib)
      → IsHealthy lib s
      → length key < 2 ^ 16
      → missing ≢ []
      → unread lib s ++ missing ≡ htons (length key) ++ (key ++ [])
      → GivesUp (command_del lib) sync compress serialized s
  unfolding command_del ◌>>=◌
  command_del-cut sync compress serialized key missing s h short lost front =
      elim (read_key-cut key [] missing s h short front) [
        | inl (b, rs, gone) ↦ label-cut _ s h (b, rs, ground (arith, gone))
        | inr (part, b, rs, ran, there, left) ↦ absurd (not_lost part missing lost left)
      ]

  pub command_get-cut :
      (sync compress serialized : Bool) (key missing : Bytes) (s : State lib)
      → IsHealthy lib s
      → length key < 2 ^ 16
      → missing ≢ []
      → unread lib s ++ missing ≡ htons (length key) ++ (key ++ [])
      → GivesUp (command_get lib) sync compress serialized s
  unfolding command_get ◌>>=◌
  command_get-cut sync compress serialized key missing s h short lost front =
      elim (read_key-cut key [] missing s h short front) [
        | inl (b, rs, gone) ↦ label-cut _ s h (b, rs, ground (arith, gone))
        | inr (part, b, rs, ran, there, left) ↦ absurd (not_lost part missing lost left)
      ]

  pub command_put-cut :
      (sync compress serialized : Bool) (key value missing : Bytes) (s : State lib)
      → IsHealthy lib s
      → length key < 2 ^ 16
      → length value < 2 ^ 32
      → missing ≢ []
      → unread lib s ++ missing
        ≡ htons (length key) ++ (key ++ (htonl (length value) ++ (value ++ [])))
      → GivesUp (command_put lib) sync compress serialized s
  unfolding command_put ◌>>=◌
  command_put-cut sync compress serialized key value missing s h short_key short lost front =
      elim (read_key-cut key (htonl (length value) ++ (value ++ [])) missing s h short_key front) [
        | inl (b, rs, gone) ↦ label-cut _ s h (b, rs, ground (arith, gone))
        | inr (part, b1, rs1, ran1, there, left1) ↦
            let s1 = taken lib s b1 rs1 in
            elim (read_value-cut value [] missing s1 (taken-IsHealthy lib b1 rs1 h) short
              (rw there left1)) [
                | inl (b, rs, gone) ↦ label-cut _ s h (b, rs, ground (arith, ran1, gone))
                | inr (more, b, rs, ran, behind, left) ↦ absurd (not_lost more missing lost left)
              ]
      ]
