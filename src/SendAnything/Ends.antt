-- ===== src/SendAnything/Ends.antt =====
-- The fuel of the loops of cmd/send-anything/app/server.go, each round of which takes a message off
-- the list that stands for the stream.
use aion_core.Prelude.{
  ℕ, zero, suc, ◌≤◌, ◌<◌, ◌≢◌, inl, inr, String, List, [], ◌∷◌, length, Result, Result-cases, ok,
  err, arith,
}
use aion_core.Filepath.{join}
use aion_core.Kanban.Types.{SendKanban, FileInfo, SendContext}
use aion_core.SendAnything.Outside.{Codec, Os, Fault, out_of_fuel}
use aion_core.SendAnything.Builder.{
  ReceivingFileBuilder, dequeue, OutputFileInfo, OutputDirInfo, OutputItemInfo,
  new_output_item_info, new_receiving_file_builder,
}
use aion_core.SendAnything.Receive.{
  Answer, unmarshal, then_on, receive_file_cont, receive_eof, download_file_loop, download_file,
  receive_file_info,
}
use aion_core.SendAnything.Download.{
  new_dir, add_file, add_item_file, add_item_dir, receive_eos, download_dir_loop, download_dir,
  receive_dir_info, download_loop, download_anything,
}

abbrev pub HasFuel : {A : Type 0} → Result Fault A → Type 0
HasFuel r = r ≢ err out_of_fuel

-- The call took no message twice, and had fuel enough.
abbrev EndsIn : {Any S A : Type 0} → ℕ → Answer Any S A → Type 0
EndsIn n r = (length r.1.0 ≤ n) × HasFuel r.0

module _ {Any S : Type 0} (codec : Codec Any) (os : Os S) where
  receive_file_cont-HasFuel :
      (in_ : SendContext Any) (file : ReceivingFileBuilder)
      → HasFuel (receive_file_cont codec os in_ file)
  unfolding receive_file_cont
  receive_file_cont-HasFuel in_ file = ground arith

  receive_eof-HasFuel :
      (in_ : SendContext Any) (f : FileInfo) (file : ReceivingFileBuilder) (out : String) (s : S)
      → HasFuel (receive_eof codec os in_ f file out s).0
  unfolding receive_eof dequeue
  receive_eof-HasFuel in_ f file out s = ground arith

  download_file_loop-EndsIn :
      (f : FileInfo) (out : String) (file : ReceivingFileBuilder) (inbox : List (SendContext Any))
      (s : S)
      → EndsIn (length inbox) (download_file_loop codec os f out file inbox s)
  unfolding download_file_loop
  download_file_loop-EndsIn f out file [] s = ground arith
  download_file_loop-EndsIn f out file (in_ ∷ inbox) s =
      elim (Result-cases (receive_file_cont codec os in_ file)) [
        | inl (e, q) ↦
            ground
              (arith, q, receive_file_cont-HasFuel in_ file, receive_eof-HasFuel in_ f file out s)
        | inr (file', q) ↦ ground (
          arith,
          q,
          receive_eof-HasFuel in_ f file out s,
          download_file_loop-EndsIn f out file' inbox s,
        )
      ]

  receive_file_info-EndsIn :
      (in_ : SendContext Any) (out : String) (inbox : List (SendContext Any)) (s : S)
      → EndsIn (length inbox) (receive_file_info codec os in_ out inbox s)
  unfolding receive_file_info download_file
  receive_file_info-EndsIn in_ out inbox s =
      elim (Result-cases (unmarshal codec.unmarshal_file_info in_.context)) [
        | inl (e, q) ↦ ground (arith, q)
        | inr (f, q) ↦
            ground
              (arith, q, download_file_loop-EndsIn f out (new_receiving_file_builder f) inbox s)
      ]

  -- A step that takes no message twice, and then a rest with fuel for what is left.
  then_on-EndsIn :
      {A B : Type 0} (n : ℕ) (r : Answer Any S A)
      (k : A → List (SendContext Any) → S → Answer Any S B)
      → EndsIn n r
      → ((a : A) (inbox : List (SendContext Any)) (s : S)
          → length inbox ≤ n
          → EndsIn n (k a inbox s))
      → EndsIn n (then_on r k)
  then_on-EndsIn n (ok a, (inbox, s)) k (h, x) g = g a inbox s h
  then_on-EndsIn n (err e, (inbox, s)) k (h, x) g = (h, ground arith)

  download_dir_loop-EndsIn :
      (n : ℕ) (d : OutputDirInfo) (inbox : List (SendContext Any)) (s : S)
      → length inbox < n
      → EndsIn (length inbox) (download_dir_loop codec os n d inbox s)
  unfolding download_dir_loop
  download_dir_loop-EndsIn zero d inbox s h = absurd (omega arith)
  download_dir_loop-EndsIn (suc n) d [] s h = ground arith
  download_dir_loop-EndsIn (suc n) d (in_ ∷ inbox) s h =
      let k : OutputFileInfo → List (SendContext Any) → S → Answer Any S OutputDirInfo =
        λ f inbox' s'. download_dir_loop codec os n (add_file f d) inbox' s' in
      let step =
        then_on-EndsIn (length inbox) (receive_file_info codec os in_ d.path inbox s) k
          (receive_file_info-EndsIn in_ d.path inbox s)
          (λ f inbox' s' h'.
            let (m, x) = download_dir_loop-EndsIn n (add_file f d) inbox' s' (omega arith) in
            (omega arith, x)) in
      ground (arith, step)

  receive_dir_info-EndsIn :
      (in_ : SendContext Any) (root : String) (inbox : List (SendContext Any)) (s : S)
      → EndsIn (length inbox) (receive_dir_info codec os in_ root inbox s)
  unfolding receive_dir_info download_dir
  receive_dir_info-EndsIn in_ root inbox s =
      elim (Result-cases (unmarshal codec.unmarshal_dir_info in_.context)) [
        | inl (e, q) ↦ ground (arith, q)
        | inr (d, q) ↦ ground (
          arith,
          q,
          download_dir_loop-EndsIn (suc (length inbox)) (new_dir d (join root d.rel_parent_path))
              inbox s,
        )
      ]

  receive_eos-HasFuel :
      (in_ : SendContext Any) (items : OutputItemInfo) → HasFuel (receive_eos codec os in_ items)
  unfolding receive_eos
  receive_eos-HasFuel in_ items = ground arith

  download_loop-EndsIn :
      (n : ℕ) (items : OutputItemInfo) (k : SendKanban) (path : String)
      (inbox : List (SendContext Any)) (s : S)
      → length inbox < n
      → EndsIn (length inbox) (download_loop codec os n items k path inbox s)
  unfolding download_loop
  download_loop-EndsIn zero items k path inbox s h = absurd (omega arith)
  download_loop-EndsIn (suc n) items k path [] s h = ground arith
  download_loop-EndsIn (suc n) items k path (in_ ∷ inbox) s h =
      let on_file : OutputFileInfo → List (SendContext Any) → S → Answer Any S SendKanban =
        λ f inbox' s'. download_loop codec os n (add_item_file f items) k path inbox' s' in
      let on_dir : OutputDirInfo → List (SendContext Any) → S → Answer Any S SendKanban =
        λ d inbox' s'. download_loop codec os n (add_item_dir d items) k path inbox' s' in
      let file =
        then_on-EndsIn (length inbox) (receive_file_info codec os in_ path inbox s) on_file
          (receive_file_info-EndsIn in_ path inbox s)
          (λ f inbox' s' h'.
            let (m, x) =
              download_loop-EndsIn n (add_item_file f items) k path inbox' s' (omega arith) in
            (omega arith, x)) in
      let dir =
        then_on-EndsIn (length inbox) (receive_dir_info codec os in_ path inbox s) on_dir
          (receive_dir_info-EndsIn in_ path inbox s)
          (λ d inbox' s' h'.
            let (m, x) =
              download_loop-EndsIn n (add_item_dir d items) k path inbox' s' (omega arith) in
            (omega arith, x)) in
      ground (arith, file, dir, receive_eos-HasFuel in_ items)

  -- The fuel of the loops is enough for every stream: `downloadAnything` comes to an end with a
  -- kanban or with one of the errors of the program.
  pub download_anything_ends :
      (k : SendKanban) (path : String) (inbox : List (SendContext Any)) (s : S)
      → (download_anything codec os k path inbox s).0 ≢ err out_of_fuel
  unfolding download_anything
  download_anything_ends k path inbox s =
      (download_loop-EndsIn (suc (length inbox)) new_output_item_info k path inbox s
        (omega arith)).1
