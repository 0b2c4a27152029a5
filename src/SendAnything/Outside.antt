-- ===== src/SendAnything/Outside.antt =====
-- What cmd/send-anything calls and does not implement: the files of the machine, MD5, the packing
-- of messages into google.protobuf.Any, and the errors that come back.
use aion_core.Prelude.{ℕ, String, Bool, Option, some, List, [], ◌∷◌, ◌++◌, ◌≡◌, ◌≢◌, true, false}
use aion_core.Kanban.Types.{Bytes, SendKanban, FileInfo, DirInfo, Chunk, StreamInfo, SendContext}

-- anypb.New and ptypes.UnmarshalAny at the five message types that the program packs. `none` is
-- an error.
pub record Codec (Any : Type 0) : Type 0 where
  pub new_send_kanban : SendKanban → Option Any
  pub new_file_info : FileInfo → Option Any
  pub new_dir_info : DirInfo → Option Any
  pub new_chunk : Chunk → Option Any
  pub new_stream_info : StreamInfo → Option Any
  pub unmarshal_send_kanban : Any → Option SendKanban
  pub unmarshal_file_info : Any → Option FileInfo
  pub unmarshal_dir_info : Any → Option DirInfo
  pub unmarshal_chunk : Any → Option Chunk
  pub unmarshal_stream_info : Any → Option StreamInfo

-- What is packed is read back.
pub record IsFaithful {Any : Type 0} (codec : Codec Any) : Type 0 where
  pub send_kanban :
      (m : SendKanban) (a : Any)
      → codec.new_send_kanban m ≡ some a
      → codec.unmarshal_send_kanban a ≡ some m
  pub file_info :
      (m : FileInfo) (a : Any)
      → codec.new_file_info m ≡ some a
      → codec.unmarshal_file_info a ≡ some m
  pub dir_info :
      (m : DirInfo) (a : Any) → codec.new_dir_info m ≡ some a → codec.unmarshal_dir_info a ≡ some m
  pub chunk : (m : Chunk) (a : Any) → codec.new_chunk m ≡ some a → codec.unmarshal_chunk a ≡ some m
  pub stream_info :
      (m : StreamInfo) (a : Any)
      → codec.new_stream_info m ≡ some a
      → codec.unmarshal_stream_info a ≡ some m

pub data Mode : Type 0 where
  directory regular irregular : Mode

-- The files of a machine, over their state `S`. `stat` is `none` if there is no such file; other
-- errors of os.Stat are outside the model. The errors of os.Mkdir and os.MkdirAll are only logged
-- by the program, so only their effect is here. `create` truncates, and its Boolean says whether
-- it succeeded, as that of `write` does; a failed write may have written a part.
pub record Os (S : Type 0) : Type 0 where
  pub stat : String → S → Option Mode
  pub mkdir : String → S → S
  pub mkdir_all : String → S → S
  pub create : String → S → S × Bool
  pub write : String → Bytes → S → S × Bool
  -- os.Open, and then the contents that io.Copy reads
  pub can_open : String → S → Bool
  pub contents : String → S → Option Bytes
  pub remove : String → S → S
  -- crypto/md5
  pub md5 : Bytes → Bytes

-- A file that was created and then written without an error can be opened and holds what was
-- written.
pub record IsReliable {S : Type 0} (os : Os S) : Type 0 where
  pub read_back :
      (path : String) (b : Bytes) (s : S)
      → (os.create path s).1 ≡ true
      → (os.write path b (os.create path s).0).1 ≡ true
      → (os.can_open path (os.write path b (os.create path s).0).0 ≡ true)
        × (os.contents path (os.write path b (os.create path s).0).0 ≡ some b)

-- Creating and writing a file makes no other file readable and none unreadable.
pub record IsSeparate {S : Type 0} (os : Os S) : Type 0 where
  pub elsewhere :
      (path other : String) (b : Bytes) (s : S)
      → path ≢ other
      → os.can_open other (os.write path b (os.create path s).0).0 ≡ os.can_open other s

-- The errors of the two packages, without their text.
pub data Fault : Type 0 where
  receive_failed unmarshal_failed unexpected_code : Fault
  wrong_order wrong_name broken_file : Fault
  create_failed write_failed open_failed : Fault
  read_failed pack_failed send_failed : Fault
  not_found not_sendable unknown_file_type : Fault
  wrong_count : Fault
  -- a nil pointer is followed, which panics
  nil_pointer : Fault
  -- the loop's fuel: no run of the program ends so
  out_of_fuel : Fault

-- The stream to the other device, over its state `L`: `stream.Send`, whose Boolean says that it
-- gave no error, and `retry.Do` of github.com/avast/retry-go with its number of attempts. `sent`
-- is what the other side gets to see.
pub record Link (Any L : Type 0) : Type 0 where
  pub send : SendContext Any → L → L × Bool
  pub retry_do : ℕ → (L → L × Bool) → L → L × Bool
  pub sent : L → List (SendContext Any)

-- What is sent without an error arrives behind what was sent before, and what fails does not
-- arrive. A retried function that ends without an error has failed some times, and then succeeded
-- once.
pub record IsOrdered {Any L : Type 0} (link : Link Any L) : Type 1 where
  pub arrives :
      (m : SendContext Any) (l : L)
      → (link.send m l).1 ≡ true
      → link.sent (link.send m l).0 ≡ link.sent l ++ m ∷ []
  pub lost :
      (m : SendContext Any) (l : L)
      → (link.send m l).1 ≡ false
      → link.sent (link.send m l).0 ≡ link.sent l
  pub retried :
      (n : ℕ) (f : L → L × Bool) (P Q : L → Type 0) (l : L)
      → P l
      → ((k : L) → P k → (f k).1 ≡ false → P (f k).0)
      → ((k : L) → P k → (f k).1 ≡ true → Q (f k).0)
      → (link.retry_do n f l).1 ≡ true
      → Q (link.retry_do n f l).0
