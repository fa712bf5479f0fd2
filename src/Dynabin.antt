-- ===== src/Dynabin.antt =====
-- ydynabin, the growing buffers of Ylib: its functions as a parameter, with what ydynabin.h says of
-- them.
use fine_db.Prelude.{ℕ, ◌≤◌, ◌≡◌, Option, some, [], ◌++◌, Bytes, length, drop}

pub record Dynabin : Type 1 where
  pub Buffer : Type 0
  -- The `len` bytes at `data`.
  pub bytes : Buffer → Bytes
  pub ydynabin_new : Buffer
  -- `none` is YENOMEM.
  pub ydynabin_expand : Buffer → Bytes → Option Buffer
  pub ydynabin_forward : Buffer → ℕ → Buffer

pub record IsDynabin (d : Dynabin) : Type 0 where
  pub bytes-new : d.bytes d.ydynabin_new ≡ []
  pub bytes-expand :
      (b c : d.Buffer) (xs : Bytes) → d.ydynabin_expand b xs ≡ some c → d.bytes c ≡ d.bytes b ++ xs
  pub bytes-forward :
      (b : d.Buffer) (n : ℕ)
      → n ≤ length (d.bytes b)
      → d.bytes (d.ydynabin_forward b n) ≡ drop n (d.bytes b)

-- Buffers for which there is always memory.
abbrev pub HasMemory : Dynabin → Type 0
HasMemory d = (b : d.Buffer) (xs : Bytes) → (c : d.Buffer) × (d.ydynabin_expand b xs ≡ some c)

-- Lists of bytes are such buffers.
abbrev pub list_dynabin : Dynabin
list_dynabin = record {
  Buffer = Bytes;
  bytes = λ b. b;
  ydynabin_new = [];
  ydynabin_expand = λ b xs. some (b ++ xs);
  ydynabin_forward = λ b n. drop n b;
}
