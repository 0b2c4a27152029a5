-- ===== src/Kanban/Keys.antt =====
-- internal/kanban/interface.go: the names of the Redis streams.
use aion_core.Prelude.{String, ◌<>◌, List, [], ◌∷◌}
use aion_core.Prelude.Int.{ℤ}
use aion_core.Prelude.Decimal.{pad3}

-- strings.Join(parts, ":")
unfoldable pub join_colon : List String → String
join_colon [] = ""
join_colon (x ∷ []) = x
join_colon (x ∷ y ∷ l) = x <> ":" <> join_colon (y ∷ l)

pub data StatusType : Type 0 where
  before after static : StatusType

unfoldable pub get_before_stream_key : String → ℤ → String
unfolding join_colon
get_before_stream_key ms_name number = join_colon ("kanban" ∷ "before" ∷ ms_name ∷ pad3 number ∷ [])

unfoldable pub get_after_stream_key : String → ℤ → String
unfolding join_colon
get_after_stream_key ms_name number = join_colon ("kanban" ∷ "after" ∷ ms_name ∷ pad3 number ∷ [])

unfoldable pub get_static_stream_key : String → String
unfolding join_colon
get_static_stream_key topic = join_colon ("kanban" ∷ "static" ∷ topic ∷ [])

unfoldable pub get_stream_key_by_status_type : String → ℤ → StatusType → String
unfolding get_before_stream_key get_after_stream_key
get_stream_key_by_status_type ms_name ms_number before = get_before_stream_key ms_name ms_number
get_stream_key_by_status_type ms_name ms_number after = get_after_stream_key ms_name ms_number
get_stream_key_by_status_type ms_name ms_number static = ""
