-- ===== src/Message.antt =====
-- include/event_message.h: the event types and the message that the mailboxes carry.
use acnet.Prelude.{ℕ, Option, Bytes, codes}

-- `enum class EventType : uint8_t`
pub data EventType : Type 0 where
  none_event : EventType
  cmd_exit : EventType
  cmd_module_stop : EventType
  cmd_module_reload : EventType
  cmd_module_remove : EventType
  module_exited : EventType
  crash_report : EventType

-- The enumerators' values.
unfoldable pub value : EventType → ℕ
value none_event = 0x00
value cmd_exit = 0x01
value cmd_module_stop = 0x02
value cmd_module_reload = 0x03
value cmd_module_remove = 0x04
value module_exited = 0x80
value crash_report = 0x81

unfoldable pub event_type_to_string : EventType → Bytes
event_type_to_string none_event = codes "NOP Event"
event_type_to_string cmd_exit = codes "Exit Command Event"
event_type_to_string cmd_module_stop = codes "Module Stop Command Event"
event_type_to_string cmd_module_reload = codes "Module Reload Command Event"
event_type_to_string cmd_module_remove = codes "Module Remove Command Event"
event_type_to_string module_exited = codes "Module Exited Event"
event_type_to_string crash_report = codes "Crash Report Event"

-- `struct EventMessage`. Every payload that the program sets is a `std::string`.
pub record EventMessage : Type 0 where
  pub ref : ℕ
  pub type : EventType
  pub sender_id : ℕ
  pub payload : Option Bytes
