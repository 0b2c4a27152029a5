-- ===== src/Kanban/Types.antt =====
-- The messages of proto/kanbanpb, as proto/kanbanpb/status.pb.go declares them. An `int32` that is
-- only copied, compared for equality and counted up is its bit pattern, a number below 2 ^ 32.
use aion_core.Prelude.{ℕ, String, Bool, Option, List}
use aion_core.Prelude.Int.{ℤ}

abbrev pub Bytes : Type 0
Bytes = List ℕ

-- google.protobuf.Struct and Value; a float64 is its bit pattern.
mutual
  pub data Value : Type 0 where
    null_value : Value
    number_value : ℕ → Value
    string_value : String → Value
    bool_value : Bool → Value
    struct_value : Fields → Value
    list_value : Values → Value
    -- a Value with no kind set
    no_kind : Value

  pub data Fields : Type 0 where
    end : Fields
    field : String → Value → Fields → Fields

  pub data Values : Type 0 where
    nil : Values
    cons : Value → Values → Values

pub record StatusKanban : Type 0 where
  pub start_at : String
  pub finish_at : String
  pub next_device_name : String
  pub connection_key : String
  pub process_number : ℤ
  pub prior_success : Bool
  pub data_path : String
  pub file_list : List String
  pub metadata : Option Fields

pub record SendKanban : Type 0 where
  pub device_name : String
  pub device_addr : String
  pub next_service : String
  pub next_number : ℤ
  -- a pointer, which may be nil
  pub after_kanban : Option StatusKanban

pub record FileInfo : Type 0 where
  pub size : ℕ
  pub chunk_cnt : ℕ
  pub hash : Bytes
  pub name : String
  pub rel_dir : String

pub record DirInfo : Type 0 where
  pub file_cnt : ℕ
  pub dir_name : String
  pub rel_parent_path : String
  pub files : List FileInfo

pub record Chunk : Type 0 where
  pub context : Bytes
  pub name : String
  pub ref_num : ℕ

pub record StreamInfo : Type 0 where
  pub file_count : ℕ

-- A proto3 enumeration is open: `unknown_code` stands for a number that the file does not name.
pub data UploadRequestCode : Type 0 where
  sending_kanban sending_file_cont sending_file_eof sending_file_failed eos : UploadRequestCode
  sending_file_info end_of_sending_file sending_dir_info end_of_sending_dir : UploadRequestCode
  sending_status : UploadRequestCode
  unknown_code : ℕ → UploadRequestCode

-- `Any` is google.protobuf.Any, a message of any type; `context` may be nil.
pub record SendContext (Any : Type 0) : Type 0 where
  pub code : UploadRequestCode
  pub context : Option Any

pub data UploadStatusCode : Type 0 where
  unknown failed ok_status : UploadStatusCode
