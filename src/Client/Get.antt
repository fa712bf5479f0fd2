-- ===== src/Client/Get.antt =====
-- finedb_get of src/lib/libfinedb.c, which reads its response through a buffer.
use fine_db.Prelude.{
  ℕ, zero, suc, Bool, true, false, Option, none, some, [], ◌∷◌, ◌++◌, Bytes, length, take,
  if◌then◌else◌,
}
use fine_db.Yerr.{Yerr, yenoerr}
use fine_db.Wire.{htons, ntohl}
use fine_db.Dynabin.{Dynabin}
use fine_db.Snappy.{Snappy}
use fine_db.Protocol.{Command, command_code, request_add_compressed, request_has_compressed}
use fine_db.Socket.Read.{read_loop}
use fine_db.Client.{
  Client, FinedbResult, finedb_ok, err_network, err_memory, err_zip, send, malloc, result_of,
}

abbrev pub get_request : Bytes → Bytes
get_request key = request_add_compressed (command_code Command.get) ∷ (htons (length key) ++ key)

-- A step of the reading: a value, or the jump to `end_of_process` with a result.
pub data Outcome (A : Type 0) : Type 0 where
  gives : A → Outcome A
  stops : FinedbResult → Outcome A

module _ (dyn : Dynabin) (zip : Snappy) where
  open dyn use {Buffer, bytes, ydynabin_forward, ydynabin_new}

  pub record Talk : Type 0 where
    pub client : Client
    pub buff : Buffer

  abbrev pub Call : Type 0 → Type 0
  Call A = Talk → Outcome A × Talk

  pub give : {A : Type 0} → A → Call A
  give a t = (gives a, t)

  pub stop : {A : Type 0} → FinedbResult → Call A
  stop e t = (stops e, t)

  after : {A B : Type 0} → Outcome A → (A → Call B) → Call B
  after (stops e) f t = (stops e, t)
  after (gives a) f t = f a t

  infixl 10 ◌>>=◌ ◌>>◌
  unfoldable pub ◌>>=◌ : {A B : Type 0} → Call A → (A → Call B) → Call B
  unfolding give stop after
  ◌>>=◌ m f t = let r = m t in after r.0 f r.1

  abbrev pub ◌>>◌ : {A B : Type 0} → Call A → Call B → Call B
  m >> k = m >>= λ _. k

  -- `_read_data`; with the descriptor -1, `read` fails.
  unfoldable pub read_data : ℕ → Talk → Yerr × Talk
  read_data size t = elim t.client.sock [
    | none ↦ let r = read_loop dyn size [] t.buff in (r.0, t)
    | some fd ↦
        let r = read_loop dyn size t.client.recvs t.buff in
        (
          r.0,
          record {
            client = record t.client { socket = record t.client.socket { recvs = r.1 } };
            buff = r.2;
          },
        )
  ]

  on_read : ℕ → Yerr → Call Bytes
  on_read n yenoerr t =
      (gives (take n (bytes t.buff)), record t { buff = ydynabin_forward t.buff n })
  on_read n e t = (stops err_network, t)

  -- `_read_data`, and the bytes that ydynabin_forward steps over.
  unfoldable pub fetch : ℕ → Call Bytes
  unfolding on_read
  fetch n t = let r = read_data n t in on_read n r.0 r.1

  allocate : Call (Unit {0})
  allocate t =
      let r = malloc t.client in
      (if r.0 then gives tt else stops err_memory, record t { client = r.1 })

  unless_bad : FinedbResult → Call (Unit {0})
  unless_bad finedb_ok = give tt
  unless_bad e = stop e

  first : Bytes → ℕ
  first [] = 0
  first (x ∷ xs) = x

  or_stop : Option Bytes → Call Bytes
  or_stop none = stop err_zip
  or_stop (some plain) = give plain

  unzip_if : Bool → Bytes → Call Bytes
  unfolding or_stop allocate
  unzip_if false found = give found
  unzip_if true found = do allocate; or_stop (zip.snappy_uncompress found)

  -- The data is NULL, here the empty list, if its length is 0.
  unfoldable pub fetch_value : ℕ → ℕ → Call Bytes
  unfolding unzip_if allocate
  fetch_value code zero = give []
  fetch_value code (suc n) = do
    found ← fetch (suc n)
    allocate
    unzip_if (request_has_compressed code) found

  unfoldable pub get_response : Call Bytes
  unfolding first unless_bad
  get_response = do
    code ← fetch 1
    unless_bad (result_of (some (first code)))
    len ← fetch 4
    fetch_value (first code) (ntohl len)

  -- The value that is set beside a result.
  outcome : Outcome Bytes → FinedbResult × Option Bytes
  outcome (gives value) = (finedb_ok, some value)
  outcome (stops e) = (e, none)

  unfoldable pub finedb_get : Bytes → Client → (FinedbResult × Option Bytes) × Client
  unfolding outcome
  finedb_get key c =
      let s = send (get_request key) c in
      let r = get_response (record { client = s.1; buff = ydynabin_new }) in
      if s.0 then (outcome r.0, r.1.client) else ((err_network, none), s.1)
