-- ===== src/Protocol/Mux/ServiceList.antt =====
-- The service list of a CmdServiceList frame: names joined by newlines.
pub mod RoundTrip
use atlax.Base.{
  ℕ, Bytes, Bool, true, false, ◌||◌, List, [], ◌∷◌, ◌++◌, ◌==◌, ltb, length, take, if◌then◌else◌,
}
use atlax.Protocol.Frame.{cmd_service_list, max_payload_size}
use atlax.Protocol.WriteQueue.{priority_control}
use atlax.Protocol.Mux.Session.{MuxSession, mk_frame, send}

abbrev pub max_service_list_count : ℕ
max_service_list_count = 1024

abbrev pub newline : ℕ
newline = 10

abbrev pub carriage_return : ℕ
carriage_return = 13

-- One more byte in front of the first segment.
abbrev push_byte : ℕ → List Bytes → List Bytes
push_byte b [] = (b ∷ []) ∷ []
push_byte b (s ∷ ss) = (b ∷ s) ∷ ss

-- `strings.Split(s, "\n")`: never empty.
unfoldable pub split_lines : Bytes → List Bytes
split_lines [] = [] ∷ []
split_lines (b ∷ bs) = if b == newline then [] ∷ split_lines bs else push_byte b (split_lines bs)

-- `strings.Join(services, "\n")`
unfoldable pub join_lines : List Bytes → Bytes
join_lines [] = []
join_lines (s ∷ []) = s
join_lines (s ∷ (t ∷ ts)) = s ++ (newline ∷ join_lines (t ∷ ts))

abbrev pub is_empty : Bytes → Bool
is_empty [] = true
is_empty (b ∷ bs) = false

unfoldable pub drop_empty : List Bytes → List Bytes
drop_empty [] = []
drop_empty (s ∷ ss) = if is_empty s then drop_empty ss else s ∷ drop_empty ss

-- The parsing half of `handleServiceList`: at most `MaxServiceListCount` segments are looked at, and
-- the empty ones are left out.
unfoldable pub parse_service_list : Bytes → List Bytes
unfolding split_lines drop_empty
parse_service_list [] = []
parse_service_list (b ∷ bs) = drop_empty (take max_service_list_count (split_lines (b ∷ bs)))

-- `strings.ContainsAny(name, "\n\r")`
unfoldable pub has_line_break : Bytes → Bool
has_line_break [] = false
has_line_break (b ∷ bs) = b == newline || b == carriage_return || has_line_break bs

unfoldable pub any_line_break : List Bytes → Bool
unfolding has_line_break
any_line_break [] = false
any_line_break (s ∷ ss) = has_line_break s || any_line_break ss

pub data SendResult : Type 0 where
  sent : MuxSession → SendResult
  name_has_newline payload_too_large : SendResult

unfoldable pub send_service_list : MuxSession → List Bytes → SendResult
unfolding any_line_break join_lines
send_service_list m services =
    if any_line_break services
    then name_has_newline
    else if ltb max_payload_size (length (join_lines services))
    then payload_too_large
    else sent (send m (mk_frame cmd_service_list 0 0 (join_lines services)) priority_control)
