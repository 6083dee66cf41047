-- ===== src/Protocol/Mux/ServiceList/RoundTrip.antt =====
-- The service list that an agent sends is the one that the relay parses.
use atlax.Base.{
  ℕ, zero, suc, ◌≤◌, ◌<◌, ◌≡◌, refl, ap, ◌∙◌, Bytes, true, false, List, [], ◌∷◌, ◌++◌, ltb, length,
  take, All, arith, Bool-cases, ltb→lt, ◌⊎◌, inl, inr,
}
use atlax.Protocol.Frame.{Frame, cmd_service_list, max_payload_size}
use atlax.Protocol.WriteQueue.{priority_control}
use atlax.Protocol.Mux.Session.{MuxSession, mk_frame, send}
use atlax.Protocol.Mux.ServiceList.{
  max_service_list_count, newline, split_lines, join_lines, is_empty, drop_empty,
  parse_service_list, has_line_break, any_line_break, sent, name_has_newline, payload_too_large,
  send_service_list,
}

split_single : (s : Bytes) → has_line_break s ≡ false → split_lines s ≡ s ∷ []
unfolding split_lines has_line_break
split_single [] h = refl
split_single (b ∷ bs) h = ground (arith, split_single bs)

split_join_step :
    (s rest : Bytes)
    → has_line_break s ≡ false
    → split_lines (s ++ (newline ∷ rest)) ≡ s ∷ split_lines rest
unfolding split_lines has_line_break
split_join_step [] rest h = refl
split_join_step (b ∷ bs) rest h = ground (arith, split_join_step bs rest)

-- Splitting what was joined gives the names back.
split-join :
    (s : Bytes) (ss : List Bytes)
    → any_line_break (s ∷ ss) ≡ false
    → split_lines (join_lines (s ∷ ss)) ≡ s ∷ ss
unfolding any_line_break join_lines
split-join s [] h = split_single s (ground arith)
split-join s (t ∷ ts) h =
    split_join_step s (join_lines (t ∷ ts)) (ground arith)
    ∙ ap (λ l. s ∷ l) (split-join t ts (ground arith))

abbrev pub NonEmpty : Bytes → Type 0
NonEmpty s = is_empty s ≡ false

drop_empty_id : (ss : List Bytes) → All NonEmpty ss → drop_empty ss ≡ ss
unfolding drop_empty
drop_empty_id [] h = refl
drop_empty_id (s ∷ ss) h = ground (arith, drop_empty_id ss)

take_all : (n : ℕ) (ss : List Bytes) → length ss ≤ n → take n ss ≡ ss
take_all zero [] h = refl
take_all zero (s ∷ ss) h = absurd (omega arith)
take_all (suc n) [] h = refl
take_all (suc n) (s ∷ ss) h = ap (λ l. s ∷ l) (take_all n ss (omega arith))

parse_lines :
    (bs : Bytes)
    → is_empty bs ≡ false
    → parse_service_list bs ≡ drop_empty (take max_service_list_count (split_lines bs))
unfolding parse_service_list
parse_lines [] h = cc
parse_lines (b ∷ bs) h = refl

join_nonempty :
    (ss : List Bytes) (s : Bytes) → is_empty s ≡ false → is_empty (join_lines (s ∷ ss)) ≡ false
unfolding join_lines
join_nonempty [] s h = h
join_nonempty (t ∷ ts) [] h = cc
join_nonempty (t ∷ ts) (b ∷ bs) h = refl

pub parse-join :
    (ss : List Bytes)
    → All NonEmpty ss
    → length ss ≤ max_service_list_count
    → any_line_break ss ≡ false
    → parse_service_list (join_lines ss) ≡ ss
unfolding join_lines
parse-join [] n l h = unfold parse_service_list in refl
parse-join (s ∷ ss) n l h =
    parse_lines (join_lines (s ∷ ss)) (join_nonempty ss s n.0)
    ∙ rw (split-join s ss h, take_all max_service_list_count (s ∷ ss) l) (drop_empty_id (s ∷ ss) n)

-- When `SendServiceList` accepts a list of at most 1024 names, none of them empty, it queues one control frame,
-- and the peer parses that frame's payload to exactly the same list. It refuses exactly the lists with a line break
-- in a name and those that do not fit a frame.
pub parse-send_service_list :
    (m : MuxSession) (ss : List Bytes)
    → All NonEmpty ss
    → length ss ≤ max_service_list_count
    → ((any_line_break ss ≡ true) × (send_service_list m ss ≡ name_has_newline))
      ⊎ ((any_line_break ss ≡ false)
          × (max_payload_size < length (join_lines ss))
          × (send_service_list m ss ≡ payload_too_large))
      ⊎ ((f : Frame) × (send_service_list m ss ≡ sent (send m f priority_control))
          × (parse_service_list f.payload ≡ ss))
unfolding send_service_list
parse-send_service_list m ss n l = elim (Bool-cases (any_line_break ss)) [
  | inl b ↦ inl (b, rw b)
  | inr b ↦ elim (Bool-cases (ltb max_payload_size (length (join_lines ss)))) [
    | inl t ↦ inr (inl (b, ltb→lt _ _ t, rw (b, t)))
    | inr t ↦
        inr (inr (mk_frame cmd_service_list 0 0 (join_lines ss), rw (b, t), parse-join ss n l b))
  ]
]
