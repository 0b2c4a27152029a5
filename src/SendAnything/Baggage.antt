-- ===== src/SendAnything/Baggage.antt =====
-- cmd/send-anything/app/baggage/content.go: a file to send.
use aion_core.Prelude.{
  ℕ, ◌+◌, String, Bool, true, false, Option, none, some, [], ◌∷◌, length, take, drop, Result, ok,
  err,
}
use aion_core.Filepath.{join}
use aion_core.Kanban.Types.{Bytes}
use aion_core.SendAnything.Outside.{Fault, read_failed}

-- An open `os.File`: what is in it (`none` if reading it fails), and the offset. A read of a
-- regular file gives as many bytes as are asked for, and fewer only at the end of the file.
pub record OpenFile : Type 0 where
  pub content : Option Bytes
  pub offset : ℕ

-- `file` may be nil; an empty `hash` is one that was not computed yet.
pub record BaggageFile : Type 0 where
  pub file : Option OpenFile
  pub file_name : String
  pub file_dir : String
  pub size : ℕ
  pub hash : Bytes

unfoldable pub is_exist : BaggageFile → Bool
is_exist f = elim f.file [ none ↦ false | some o ↦ true ]

unfoldable pub path : BaggageFile → String
path f = join f.file_dir f.file_name

-- What `GetChunk` gives: a chunk, the end of the file (io.EOF), or an error.
pub data GetChunk : Type 0 where
  chunk : Bytes → BaggageFile → GetChunk
  end_of_file : GetChunk
  no_chunk : GetChunk

abbrev pub rest_of : OpenFile → Bytes → Bytes
rest_of o b = drop o.offset b

unfoldable pub read_chunk : ℕ → BaggageFile → OpenFile → Bytes → GetChunk
read_chunk size f o [] = end_of_file
read_chunk size f o (x ∷ rest) =
    let c = take size (x ∷ rest) in
    chunk c (record f { file = some (record o { offset = o.offset + length c }) })

-- A read of a nil file is an error (os.ErrInvalid).
unfoldable pub get_chunk : ℕ → BaggageFile → GetChunk
unfolding read_chunk
get_chunk size f = elim f.file [
  | none ↦ no_chunk
  | some o ↦ elim o.content [ none ↦ no_chunk | some b ↦ read_chunk size f o (rest_of o b) ]
]

-- The hash is computed once, and leaves the file at its start.
unfoldable pub get_hash : (Bytes → Bytes) → BaggageFile → Result Fault (Bytes × BaggageFile)
get_hash md5 f = elim f.hash [
  | x ∷ h ↦ ok (x ∷ h, f)
  | [] ↦ elim f.file [
    | none ↦ err read_failed
    | some o ↦ elim o.content [
      | none ↦ err read_failed
      | some b ↦ ok (md5 b, record f { hash = md5 b; file = some (record o { offset = 0 }) })
    ]
  ]
]
