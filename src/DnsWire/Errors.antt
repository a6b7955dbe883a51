-- ===== src/DnsWire/Errors.antt =====
-- The error values and the constants of internal/dnswire.
use dimsum.Prelude.{ℕ}

pub data WireError : Type 0 where
  bounds label_encoding pointer name_too_long : WireError
  question_count response opcode class unsupported : WireError
  bad_record bad_edns bad_version trailing : WireError
  template name_changed : WireError

abbrev pub max_name_len : ℕ
max_name_len = 255

abbrev pub max_pointers : ℕ
max_pointers = 32

abbrev pub max_message_len : ℕ
max_message_len = 65535
