-- ===== src/Tests/Transfer.antt =====
-- A file of three bytes that is sent and received, and other requests.
use aion_core.Prelude.{
  ℕ, ◌≡◌, ◌≢◌, refl, String, true, false, arith, eq_iff, Option, none, some, [], ◌∷◌, ◌++◌, lookup,
  insert, Dict, if◌then◌else◌, ok, err, str_eq,
}
use aion_core.Prelude.Int.{pos}
use aion_core.Filepath.{join, base, dir}
use aion_core.Kanban.Types.{
  Bytes, StatusKanban, SendKanban, FileInfo, SendContext, sending_file_info, sending_file_cont,
  sending_file_eof, eos,
}
use aion_core.SendAnything.Outside.{Mode, regular, open_failed, out_of_fuel}
use aion_core.SendAnything.Subdirectory.{receive_eof_subdirectory}
use aion_core.SendAnything.Builder.{
  ReceivingFileBuilder, OutputFileInfo, new_receiving_file_builder, dequeue, enqueue,
}
use aion_core.SendAnything.Receive.{
  get_abs_path, make_dir, receive_eof, download_file, receive_file_info,
}
use aion_core.SendAnything.Checked.{HasHash, Ended, place_of, download_file-HasHash}
use aion_core.SendAnything.Baggage.{BaggageFile, OpenFile, get_hash, get_chunk}
use aion_core.SendAnything.Send.{SentFileInfo, answer, send_file, send_to_server}
use aion_core.SendAnything.SendEnds.{send_file_ends}
use aion_core.SendAnything.Take.{Source}
use aion_core.SendAnything.Folder.{send_once, send_kanban, send_to_other_device_client}
use aion_core.SendAnything.EndOfStream.{EndsWithEos, send_to_other_device_client-EndsWithEos}
use aion_core.SendAnything.RoundTrip.{receive-send_file}
use aion_core.Tests.Devices.{
  Packed, a_file, a_chunk, a_stream, codec, codec-IsFaithful, disk, disk-IsReliable, Wire, wire,
  wire-IsOrdered, disk-IsSeparate,
}

abbrev opened : OpenFile
opened = record { content = some (1 ∷ 2 ∷ 3 ∷ []); offset = 0 }

abbrev photo : BaggageFile
photo = record { file = some opened; file_name = "a.jpg"; file_dir = "."; size = 3; hash = [] }

abbrev photo_info : SentFileInfo
photo_info = record { dir_name = "a.jpg"; rel_dir_path = "." }

abbrev after_photo : Wire
after_photo = (send_file codec wire disk.md5 (some photo) "." []).1

photo-sends : send_file codec wire disk.md5 (some photo) "." [] ≡ (ok photo_info, after_photo)
unfolding send_file get_hash get_chunk send_to_server
photo-sends = refl

photo-named : base (join "." "a.jpg") ≡ "a.jpg"
unfolding base join
photo-named = refl

photo-placed : join (join "/in" ".") (join "." "a.jpg") ≡ join (join "/in" ".") "a.jpg"
unfolding join
photo-placed = refl

receive-send_file_example :
    let path = join (join "/in" ".") "a.jpg" in
    (head : Packed) × (ms : Wire) × (item : OutputFileInfo) × (s' : Dict Bytes) × (after_photo
      ≡ [] ++ record { code = sending_file_info; context = some head } ∷ ms)
    × (receive_file_info codec disk
          (record { code = sending_file_info; context = some head })
          "/in"
          (ms ++ [])
          []
        ≡ (ok item, ([], s')))
    × (lookup path s' ≡ some (1 ∷ 2 ∷ 3 ∷ []))
receive-send_file_example =
    receive-send_file codec codec-IsFaithful disk disk-IsReliable wire wire-IsOrdered photo opened
      (1 ∷ 2 ∷ 3 ∷ []) "." [] "/in" [] [] refl refl refl photo-sends photo-named photo-placed refl
      refl

send_file_ends_example : (send_file codec wire disk.md5 (some photo) "." []).0 ≢ err out_of_fuel
send_file_ends_example = send_file_ends codec wire disk.md5 (some photo) "." []

abbrev no_files : StatusKanban
no_files = record {
  start_at = "";
  finish_at = "";
  next_device_name = "";
  connection_key = "default";
  process_number = pos 1;
  prior_success = true;
  data_path = "";
  file_list = [];
  metadata = none;
}

abbrev kanban : SendKanban
kanban = record {
  device_name = "desk";
  device_addr = "10.0.0.2";
  next_service = "lamp";
  next_number = pos 1;
  after_kanban = some no_files;
}

abbrev end_of_stream : SendContext Packed
end_of_stream = record { code = eos; context = some (a_stream (record { file_count = 1 })) }

abbrev photo_header : FileInfo
photo_header = record { size = 1; chunk_cnt = 0; hash = 77 ∷ 5 ∷ []; name = "b"; rel_dir = "." }

abbrev photo_messages : Wire
photo_messages =
    record {
      code = sending_file_cont;
      context = some (a_chunk (record { context = 5 ∷ []; name = "b"; ref_num = 0 }));
    }
    ∷ record { code = sending_file_eof; context = some (a_file photo_header) }
    ∷ []

abbrev photo_out : OutputFileInfo
photo_out = record { dir_name = "."; path = "/in/b" }

photo-downloads :
    download_file codec disk photo_header "/in" photo_messages []
    ≡ (ok photo_out, ([], ("/in/b", 5 ∷ []) ∷ []))
unfolding download_file new_receiving_file_builder base join dequeue lookup insert enqueue dir
    get_abs_path
photo-downloads = refl

download_file-HasHash_example :
    (eof : FileInfo) × Ended codec disk photo_messages [] eof
    × HasHash codec disk photo_header (place_of codec disk "/in" eof) (("/in/b", 5 ∷ []) ∷ [])
    × (photo_out.path ≡ get_abs_path "/in" (join photo_header.rel_dir photo_header.name))
download_file-HasHash_example =
    download_file-HasHash codec disk photo_header "/in" photo_messages [] photo-downloads

-- A machine that has only the photo.
abbrev stat_photo : String → Option (Mode × ℕ)
stat_photo p = if str_eq p "/aion/a.jpg" then some (regular, 3) else none

abbrev pub machine : Source
machine = record { cwd = "/"; stat = stat_photo; open_file = λ p. some opened; walk = λ p. none }

abbrev pub with_photo : SendKanban
with_photo = record kanban { after_kanban = some (record no_files { file_list = "a.jpg" ∷ [] }) }

kanban-sends : (send_kanban codec wire disk.md5 machine with_photo []).0 ≡ ok tt
unfolding send_kanban send_once answer
kanban-sends = refl

send_to_other_device_client-EndsWithEos_example :
    EndsWithEos codec wire wire-IsOrdered disk.md5 machine
      (send_to_other_device_client codec wire disk.md5 machine "/aion" with_photo []).1
send_to_other_device_client-EndsWithEos_example =
    send_to_other_device_client-EndsWithEos codec wire wire-IsOrdered disk.md5 machine "/aion"
      with_photo [] (λ m k. refl) kanban-sends

-- A file in the directory `sub`.
abbrev in_sub : FileInfo
in_sub = record photo_header { rel_dir = "sub" }

abbrev end_in_sub : SendContext Packed
end_in_sub = record { code = sending_file_eof; context = some (a_file in_sub) }

abbrev sub_file : ReceivingFileBuilder
sub_file = new_receiving_file_builder in_sub

paths-differ : join (join "/in" "sub") (join "sub" "b") ≢ join (join "/in" "sub") "b"
unfolding join
paths-differ = λ e. ground (arith, eq_iff "/in/sub/sub/b" "/in/sub/b", e)

sub_file-placed : sub_file.rel_path ≡ join "sub" "b"
unfolding new_receiving_file_builder
sub_file-placed = refl

sub-absent :
    disk.can_open (join (join "/in" "sub") "b") (make_dir codec disk (join "/in" "sub") []) ≡ false
unfolding make_dir lookup
sub-absent = refl

receive_eof_subdirectory_example :
    (receive_eof codec disk end_in_sub in_sub sub_file "/in" []).0 ≡ err open_failed
receive_eof_subdirectory_example =
    receive_eof_subdirectory codec disk disk-IsSeparate end_in_sub (a_file in_sub) in_sub in_sub
      sub_file "/in" [] refl refl sub_file-placed paths-differ refl refl sub-absent
