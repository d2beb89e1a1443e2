-- ===== src/Mavlink.antt =====
-- components/airlink_router/airlink_mavlink.c: the MAVLink 1 and 2 frame parser.
pub mod Table
pub mod Bounds
pub mod Step
pub mod Framing
pub mod Search
pub mod Tests
use air_link.Base.{ℕ, zero, suc, ◌+◌, ◌-◌, ◌*◌, ◌/◌, ◌%◌, ◌^◌, List, [], ◌∷◌, Bool, true, false}
use air_link.Base.{Option, none, some, not, ◌&&◌, ◌||◌, ltb, leb, ◌==◌, if◌then◌else◌}
use air_link.Base.{length, take, drop, set, get_or, replicate, bit_and, bit_xor}
use Table.{crc_extra_for}

-- `AIRLINK_MAX_FRAME_SIZE`
abbrev pub max_frame_size : ℕ
max_frame_size = 280

-- `UINT32_MAX`
abbrev pub u32_max : ℕ
u32_max = 4294967295

-- `airlink_mavlink_parser_t`: `buffer` is the array of 280 bytes, stale ones included.
pub record Parser : Type 0 where
  pub buffer : List ℕ
  pub length : ℕ
  pub expected : ℕ
  pub errors : ℕ

-- `airlink_mavlink_frame_t`. `bytes` points into the parser's buffer; here it is the buffer as it
-- was when the frame was made, which the callers read before the next byte is parsed.
pub record Frame : Type 0 where
  pub bytes : List ℕ
  pub length : ℕ
  pub message_id : ℕ
  pub system_id : ℕ
  pub component_id : ℕ
  pub mavlink2 : Bool
  pub crc_known : Bool
  pub crc_valid : Bool
  pub high_priority : Bool
  pub heartbeat_valid : Bool
  pub heartbeat_armed : Bool
  pub heartbeat_type : ℕ
  pub heartbeat_autopilot : ℕ

-- `increment_error`
pub increment_error : Parser → Parser
increment_error parser =
    if parser.errors == u32_max then parser else record parser { errors = parser.errors + 1 }

-- `crc_accumulate` on `uint8_t` and `uint16_t`
pub crc_accumulate : ℕ → ℕ → ℕ
crc_accumulate byte crc =
    let tmp = bit_xor byte (bit_and crc 0xff) in
    let tmp = bit_xor tmp (tmp * 16 % 256) in
    bit_xor (bit_xor (bit_xor (crc / 256) (tmp * 256)) (tmp * 8)) (tmp / 16) % 65536

pub crc_over : List ℕ → ℕ → ℕ
crc_over [] crc = crc
crc_over (byte ∷ rest) crc = crc_over rest (crc_accumulate byte crc)

-- `priority_message`
pub priority_message : ℕ → Bool
priority_message id =
    id == 11
    || id == 23
    || id == 69
    || id == 70
    || id == 75
    || id == 76
    || id == 77
    || (leb 37 id && leb id 51)
    || id == 66
    || id == 82
    || id == 84
    || id == 86
    || id == 110
    || (leb 282 id && leb id 288)

-- `airlink_mavlink_parser_reset`
abbrev pub fresh : Parser
fresh = record { buffer = replicate 280 0; length = 0; expected = 0; errors = 0 }

-- `parser->buffer[i]`
abbrev pub byte_at : Parser → ℕ → ℕ
byte_at parser i = get_or parser.buffer i 0

-- The parts of `finish_frame`.
pub is_v2 : Parser → Bool
is_v2 parser = byte_at parser 0 == 0xfd

pub header_length : Parser → ℕ
header_length parser = if is_v2 parser then 10 else 6

pub crc_offset : Parser → ℕ
crc_offset parser = header_length parser + byte_at parser 1

pub message_id : Parser → ℕ
message_id parser =
    if is_v2 parser
    then byte_at parser 7 + byte_at parser 8 * 256 + byte_at parser 9 * 65536
    else byte_at parser 5

-- `crc_valid`: over the buffer from byte 1 to the checksum, then the message's extra byte.
pub checksum_matches : Parser → ℕ → Bool
checksum_matches parser extra =
    let offset = crc_offset parser in
    let crc = crc_accumulate extra (crc_over (drop 1 (take offset parser.buffer)) 0xffff) in
    crc == byte_at parser offset + byte_at parser (offset + 1) * 256

pub crc_known : Parser → Bool
crc_known parser = elim (crc_extra_for (message_id parser)) [ none ↦ false | some _ ↦ true ]

pub crc_valid : Parser → Bool
crc_valid parser = elim (crc_extra_for (message_id parser)) [
  | none ↦ false
  | some extra ↦ checksum_matches parser extra
]

pub heartbeat_valid : Parser → Bool
heartbeat_valid parser =
    message_id parser == 0 && crc_known parser && crc_valid parser && leb 9 (byte_at parser 1)

-- The frame that `finish_frame` writes.
pub frame_of : Parser → Frame
frame_of parser =
    let payload = header_length parser in
    let valid = heartbeat_valid parser in
    record {
      bytes = parser.buffer;
      length = parser.length;
      message_id = message_id parser;
      system_id = byte_at parser (if is_v2 parser then 5 else 3);
      component_id = byte_at parser (if is_v2 parser then 6 else 4);
      mavlink2 = is_v2 parser;
      crc_known = crc_known parser;
      crc_valid = crc_valid parser;
      high_priority = priority_message (message_id parser);
      heartbeat_valid = valid;
      heartbeat_armed = valid && not (bit_and (byte_at parser (payload + 6)) 0x80 == 0);
      heartbeat_type = if valid then byte_at parser (payload + 4) else 0;
      heartbeat_autopilot = if valid then byte_at parser (payload + 5) else 0;
    }

-- `finish_frame`: a known message with a wrong checksum counts as an error.
pub finish_frame : Parser → Parser × Frame
finish_frame parser = (
  if crc_known parser && not (crc_valid parser) then increment_error parser else parser,
  frame_of parser,
)

-- `airlink_mavlink_heartbeat_is_autopilot`
unfoldable pub heartbeat_is_autopilot : Frame → Bool
heartbeat_is_autopilot frame =
    frame.heartbeat_valid && frame.component_id == 1 && not (frame.heartbeat_autopilot == 8)

-- `parser->buffer[parser->length++] = byte`
pub store : Parser → ℕ → Parser
store parser byte = record parser {
  buffer = set parser.buffer parser.length byte;
  length = parser.length + 1;
}

-- The update of `expected` after a byte is stored.
pub expect : Parser → ℕ → Parser
expect parser byte =
    if parser.length == 2
    then record parser { expected = (if byte_at parser 0 == 0xfd then 12 else 8) + byte }
    else if byte_at parser 0 == 0xfd && parser.length == 3 && bit_and byte 1 == 1
    then record parser { expected = parser.expected + 13 }
    else parser

-- `parser->length = parser->expected = 0`
pub restart : Parser → Parser
restart parser = record parser { length = 0; expected = 0 }

-- `airlink_mavlink_parse_byte`: the frame stands for the result true and what `*frame` holds then.
pub parse_byte : Parser → ℕ → Parser × Option Frame
parse_byte parser byte =
    if parser.length == 0
    then (if byte == 0xfe || byte == 0xfd then (store parser byte, none) else (parser, none))
    else if leb max_frame_size parser.length
    then (restart (increment_error parser), none)
    else let stored = expect (store parser byte) byte in
      let (finished, frame) = finish_frame stored in
      if not (stored.expected == 0) && stored.length == stored.expected
      then (restart finished, some frame)
      else (stored, none)
