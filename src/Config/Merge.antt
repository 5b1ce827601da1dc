-- ===== src/Config/Merge.antt =====
-- `fill_from_quickfix` of fix_monitor/src/config.cpp.
use fix_mon.Prelude.{
  Bool, true, false, List, [], ◌∷◌, ◌++◌, Bytes, is_empty, is_nonzero, ◌||◌, if◌then◌else◌, eq_text,
}
use fix_mon.Config.Session.{SessionConfig, TriState}

abbrev pub or_text : Bytes → Bytes → Bytes
or_text dst src = if is_empty dst then src else dst

abbrev pub or_tristate : TriState → TriState → TriState
or_tristate TriState.unknown src = src
or_tristate dst src = dst

-- `std::find` over the names
unfoldable pub named_in : List Bytes → Bytes → Bool
named_in [] key = false
named_in (k ∷ ks) key = eq_text k key || named_in ks key

add_name : List Bytes → Bytes → List Bytes
add_name ks key = if named_in ks key then ks else ks ++ (key ∷ [])

-- the names of `src` that are not there yet, in their order
add_names : List Bytes → List Bytes → List Bytes
add_names dst [] = dst
add_names dst (k ∷ ks) = add_names (add_name dst k) ks

unfoldable pub fill_from_quickfix : SessionConfig → SessionConfig → SessionConfig
unfolding add_names add_name named_in
fill_from_quickfix dst src = record dst {
  message_log_path = or_text dst.message_log_path src.message_log_path;
  event_log_path = or_text dst.event_log_path src.event_log_path;
  heartbeat_interval =
      if dst.heartbeat_explicit then dst.heartbeat_interval else src.heartbeat_interval;
  session_qualifier = or_text dst.session_qualifier src.session_qualifier;
  sender_sub_id = or_text dst.sender_sub_id src.sender_sub_id;
  sender_location_id = or_text dst.sender_location_id src.sender_location_id;
  target_sub_id = or_text dst.target_sub_id src.target_sub_id;
  target_location_id = or_text dst.target_location_id src.target_location_id;
  connection_type = or_text dst.connection_type src.connection_type;
  file_log_path = or_text dst.file_log_path src.file_log_path;
  file_store_path = or_text dst.file_store_path src.file_store_path;
  start_time = or_text dst.start_time src.start_time;
  end_time = or_text dst.end_time src.end_time;
  reconnect_interval =
      if is_nonzero dst.reconnect_interval then dst.reconnect_interval else src.reconnect_interval;
  origin = or_text dst.origin src.origin;
  reset_on_logon = or_tristate dst.reset_on_logon src.reset_on_logon;
  reset_on_logout = or_tristate dst.reset_on_logout src.reset_on_logout;
  reset_on_disconnect = or_tristate dst.reset_on_disconnect src.reset_on_disconnect;
  persist_messages = or_tristate dst.persist_messages src.persist_messages;
  from_quickfix = true;
  redacted_settings = add_names dst.redacted_settings src.redacted_settings;
}
