-- ===== src/Tests/Devices.antt =====
-- Message packing, files in memory and a stream that keeps its messages, for the transfer of files.
use aion_core.Prelude.{
  ℕ, zero, suc, ◌≡◌, refl, sym, ap, ◌∙◌, Bool, true, false, Option, none, some, List, [], ◌∷◌, ◌++◌,
  lookup, insert, erase, lookup-insert, Dict, if◌then◌else◌, Bool-cases, inl, inr, arith, eq_iff,
}
use aion_core.Kanban.Types.{Bytes, SendKanban, FileInfo, DirInfo, Chunk, StreamInfo, SendContext}
use aion_core.SendAnything.Outside.{
  Codec, IsFaithful, Os, IsReliable, IsSeparate, Mode, regular, Link, IsOrdered,
}

pub data Packed : Type 0 where
  a_kanban : SendKanban → Packed
  a_file : FileInfo → Packed
  a_dir : DirInfo → Packed
  a_chunk : Chunk → Packed
  a_stream : StreamInfo → Packed

abbrev read_kanban : Packed → Option SendKanban
read_kanban (a_kanban m) = some m
read_kanban _ = none

abbrev read_file : Packed → Option FileInfo
read_file (a_file m) = some m
read_file _ = none

abbrev read_dir : Packed → Option DirInfo
read_dir (a_dir m) = some m
read_dir _ = none

abbrev read_chunk : Packed → Option Chunk
read_chunk (a_chunk m) = some m
read_chunk _ = none

abbrev read_stream : Packed → Option StreamInfo
read_stream (a_stream m) = some m
read_stream _ = none

abbrev pub codec : Codec Packed
codec = record {
  new_send_kanban = λ m. some (a_kanban m);
  new_file_info = λ m. some (a_file m);
  new_dir_info = λ m. some (a_dir m);
  new_chunk = λ m. some (a_chunk m);
  new_stream_info = λ m. some (a_stream m);
  unmarshal_send_kanban = read_kanban;
  unmarshal_file_info = read_file;
  unmarshal_dir_info = read_dir;
  unmarshal_chunk = read_chunk;
  unmarshal_stream_info = read_stream;
}

pub codec-IsFaithful : IsFaithful codec
codec-IsFaithful = record {
  send_kanban = λ m a e. ground (arith, e);
  file_info = λ m a e. ground (arith, e);
  dir_info = λ m a e. ground (arith, e);
  chunk = λ m a e. ground (arith, e);
  stream_info = λ m a e. ground (arith, e);
}

abbrev is_there : Option Bytes → Bool
is_there none = false
is_there (some b) = true

abbrev mode_of : Option Bytes → Option Mode
mode_of none = none
mode_of (some b) = some regular

-- Files in memory, in directories that need not be made.
abbrev pub disk : Os (Dict Bytes)
disk = record {
  stat = λ path s. mode_of (lookup path s);
  mkdir = λ path s. s;
  mkdir_all = λ path s. s;
  create = λ path s. (insert path [] s, true);
  write = λ path b s. (insert path b s, true);
  can_open = λ path s. is_there (lookup path s);
  contents = λ path s. lookup path s;
  remove = λ path s. erase path s;
  md5 = λ b. 77 ∷ b;
}

pub disk-IsReliable : IsReliable disk
disk-IsReliable = record {
  read_back = λ path b s c w.
      let found = lookup-insert path path b (insert path [] s) in
      let same = eq_iff path path in (ground (arith, found, same), ground (arith, found, same));
}

abbrev pub Wire : Type 0
Wire = List (SendContext Packed)

abbrev retry : ℕ → (Wire → Wire × Bool) → Wire → Wire × Bool
retry zero f l = (l, false)
retry (suc n) f l = let (l', b) = f l in let again = retry n f l' in if b then (l', true) else again

-- Every send arrives.
abbrev pub wire : Link Packed Wire
wire = record { send = λ m l. (l ++ m ∷ [], true); retry_do = retry; sent = λ l. l }

retry_lem :
    (n : ℕ) (f : Wire → Wire × Bool) (P Q : Wire → Type 0) (l : Wire)
    → P l
    → ((k : Wire) → P k → (f k).1 ≡ false → P (f k).0)
    → ((k : Wire) → P k → (f k).1 ≡ true → Q (f k).0)
    → (retry n f l).1 ≡ true
    → Q (retry n f l).0
retry_lem zero f P Q l p fails succeeds h = ground (arith, h)
retry_lem (suc n) f P Q l p fails succeeds h = elim (Bool-cases (f l).1) [
  | inl e ↦ rw e (succeeds l p e)
  | inr e ↦
      let step : retry (suc n) f l ≡ retry n f (f l).0 = rw e refl in
      rw e (
        retry_lem n f P Q (f l).0 (fails l p e) fails succeeds
          (sym (ap (λ (x : Wire × Bool). x.1) step) ∙ h))
]

pub wire-IsOrdered : IsOrdered wire
wire-IsOrdered = record {
  arrives = λ m l h. refl;
  lost = λ m l h. ground (arith, h);
  retried = retry_lem;
}

pub disk-IsSeparate : IsSeparate disk
disk-IsSeparate = record {
  elsewhere = λ path other b s differ.
      let outer = lookup-insert path other b (insert path [] s) in
      let inner = lookup-insert path other [] s in
      let same = eq_iff path other in ground (arith, outer, inner, same, differ);
}
