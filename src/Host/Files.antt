-- ===== src/Host/Files.antt =====
-- `webrtc::FileWrapper` as the devices use it, with what its comments promise as laws.
use mqtgcalls.Prelude.{ℕ, Bytes, Bool, true, false, ◌≡◌, ◌++◌, length, take, drop}

-- The operations over a type of file handles. `read f n` gives the bytes read.
pub record FileApi (File : Type 0) : Type 0 where
  pub not_opened : File
  pub is_open : File → Bool
  pub close : File → File
  pub read : File → ℕ → Bytes × File
  pub write : File → Bytes → File
  pub rewind : File → File

-- What `alloc n` gives for `new int8_t[n]`: n bytes, of any value.
pub record Heap : Type 0 where
  pub alloc : ℕ → Bytes
  pub length-alloc : (n : ℕ) → length (alloc n) ≡ n

-- "If the file is not open": a default constructed and a closed wrapper are not.
pub record ClosesFiles {File : Type 0} (api : FileApi File) : Type 0 where
  pub not_opened_lem : api.is_open api.not_opened ≡ false
  pub close_lem : (f : File) → api.is_open (api.close f) ≡ false

-- A regular file that is read from front to back: `rest f` are the bytes not read yet, `whole f`
-- are all its bytes. "Short count indicates EOF or error", and there are no errors.
pub record ReadsInOrder {File : Type 0} (api : FileApi File) : Type 0 where
  pub rest : File → Bytes
  pub whole : File → Bytes
  pub read_lem : (f : File) (n : ℕ) → api.is_open f ≡ true → (api.read f n).0 ≡ take n (rest f)
  pub rest-read :
      (f : File) (n : ℕ) → api.is_open f ≡ true → rest (api.read f n).1 ≡ drop n (rest f)
  pub is_open-read : (f : File) (n : ℕ) → api.is_open f ≡ true → api.is_open (api.read f n).1 ≡ true
  pub whole-read : (f : File) (n : ℕ) → whole (api.read f n).1 ≡ whole f
  pub rest-rewind : (f : File) → api.is_open f ≡ true → rest (api.rewind f) ≡ whole f
  pub is_open-rewind : (f : File) → api.is_open f ≡ true → api.is_open (api.rewind f) ≡ true
  pub whole-rewind : (f : File) → api.is_open f ≡ true → whole (api.rewind f) ≡ whole f

-- A file that is written from front to back: `written f` are the bytes written so far.
pub record WritesInOrder {File : Type 0} (api : FileApi File) : Type 0 where
  pub written : File → Bytes
  pub write_lem :
      (f : File) (b : Bytes) → api.is_open f ≡ true → written (api.write f b) ≡ written f ++ b
  pub is_open-write :
      (f : File) (b : Bytes) → api.is_open f ≡ true → api.is_open (api.write f b) ≡ true
