-- ===== src/Control/Tests.antt =====
-- Control events at concrete inputs.
use embassy_zephyr_n_rf.Base.{[], ◌∷◌, ◌++◌, false, drop, replicate, u32_bytes}
use embassy_zephyr_n_rf.Base.Post.{Post}
use embassy_zephyr_n_rf.Protocol.Types.{HostMessageType, HostMessageRef}
use embassy_zephyr_n_rf.Control.Parse.{parse_control_event}
use embassy_zephyr_n_rf.Control.Parse.NoPanic.{IsEvent, parse_control_event-IsEvent}

-- An Authenticate event with a frame of two bytes and information elements of one.
abbrev authenticate_message : HostMessageRef
authenticate_message = record {
  resubmit = false;
  message_type = HostMessageType.umac;
  payload =
      replicate 8 0
      ++ (u32_bytes 261
          ++ (replicate 24 0
              ++ (replicate 24 0
                  ++ (u32_bytes 2 ++ (replicate 407 0 ++ (u32_bytes 1 ++ (9 ∷ [])))))));
}

parse_control_event-IsEvent_example :
    Post (IsEvent (drop 36 authenticate_message.payload)) (parse_control_event authenticate_message)
parse_control_event-IsEvent_example = parse_control_event-IsEvent authenticate_message
