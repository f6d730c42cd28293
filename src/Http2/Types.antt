-- ===== src/Http2/Types.antt =====
-- The frames, settings and errors of src/http/v2.h. A `SizedBuffer` is the list of its bytes.
use my_simple_c_http_server.Prelude.{ℕ, ◌-◌, ◌^◌, Bool, true, false, List, Bytes}

-- `Http2Identifier`
abbrev pub Http2Identifier : Type 0
Http2Identifier = ℕ

pub record Http2RawHeader : Type 0 where
  pub length : ℕ  -- 24 bits
  pub type : ℕ
  pub flags : ℕ
  pub stream_identifier : Http2Identifier

pub record Http2DataFrame : Type 0 where
  pub content : Bytes
  pub is_end : Bool
  pub identifier : Http2Identifier

pub record Http2FramePriority : Type 0 where
  pub exclusive : Bool
  pub dependency_identifier : ℕ
  pub weight : ℕ

pub record Http2FramePriorityOptional : Type 0 where
  pub has_priority : Bool
  pub priority : Http2FramePriority

pub record Http2HeadersFrame : Type 0 where
  pub priority_opt : Http2FramePriorityOptional
  pub block_fragment : Bytes
  pub identifier : Http2Identifier
  pub end_stream : Bool
  pub end_headers : Bool

pub record Http2PriorityFrame : Type 0 where
  pub priority : Http2FramePriority
  pub identifier : Http2Identifier

-- An error code is any number of 32 bits: the code of a frame is not checked.
pub record Http2RstStreamFrame : Type 0 where
  pub error_code : ℕ
  pub identifier : Http2Identifier

pub record Http2SettingSingleValue : Type 0 where
  pub identifier : ℕ
  pub value : ℕ

pub record Http2SettingsFrame : Type 0 where
  pub ack : Bool
  pub entries : List Http2SettingSingleValue

pub record Http2PushPromiseFrame : Type 0 where
  pub promised_stream_identifier : Http2Identifier
  pub block_fragment : Bytes
  pub identifier : Http2Identifier
  pub end_headers : Bool

pub record Http2PingFrame : Type 0 where
  pub ack : Bool
  pub opaque_data : Bytes

pub record Http2GoawayFrame : Type 0 where
  pub last_stream_id : Http2Identifier
  pub error_code : ℕ
  pub additional_debug_data : Bytes

pub record Http2WindowUpdateFrame : Type 0 where
  pub window_size_increment : ℕ
  pub identifier : Http2Identifier

pub record Http2ContinuationFrame : Type 0 where
  pub block_fragment : Bytes
  pub identifier : Http2Identifier
  pub end_headers : Bool

pub data Http2Frame : Type 0 where
  data_frame : Http2DataFrame → Http2Frame
  headers_frame : Http2HeadersFrame → Http2Frame
  priority_frame : Http2PriorityFrame → Http2Frame
  rst_stream_frame : Http2RstStreamFrame → Http2Frame
  settings_frame : Http2SettingsFrame → Http2Frame
  push_promise_frame : Http2PushPromiseFrame → Http2Frame
  ping_frame : Http2PingFrame → Http2Frame
  goaway_frame : Http2GoawayFrame → Http2Frame
  window_update_frame : Http2WindowUpdateFrame → Http2Frame
  continuation_frame : Http2ContinuationFrame → Http2Frame

pub record Http2Settings : Type 0 where
  pub header_table_size : ℕ
  pub enable_push : Bool
  pub max_concurrent_streams : ℕ
  pub initial_window_size : ℕ
  pub max_frame_size : ℕ
  pub max_header_list_size : ℕ

-- `Http2FrameType`
abbrev pub type_data : ℕ
type_data = 0x00

abbrev pub type_headers : ℕ
type_headers = 0x01

abbrev pub type_priority : ℕ
type_priority = 0x02

abbrev pub type_rst_stream : ℕ
type_rst_stream = 0x03

abbrev pub type_settings : ℕ
type_settings = 0x04

abbrev pub type_push_promise : ℕ
type_push_promise = 0x05

abbrev pub type_ping : ℕ
type_ping = 0x06

abbrev pub type_goaway : ℕ
type_goaway = 0x07

abbrev pub type_window_update : ℕ
type_window_update = 0x08

abbrev pub type_continuation : ℕ
type_continuation = 0x09

-- `Http2ErrorCode`: the codes that the server sends.
abbrev pub no_error : ℕ
no_error = 0x0

abbrev pub protocol_error : ℕ
protocol_error = 0x1

abbrev pub internal_error : ℕ
internal_error = 0x2

abbrev pub flow_control_error : ℕ
flow_control_error = 0x3

abbrev pub stream_closed : ℕ
stream_closed = 0x5

abbrev pub frame_size_error : ℕ
frame_size_error = 0x6

-- `Http2FrameFlag`, and the flag of SETTINGS and PING.
abbrev pub flag_end_stream : ℕ
flag_end_stream = 0x01

abbrev pub flag_end_headers : ℕ
flag_end_headers = 0x04

abbrev pub flag_padded : ℕ
flag_padded = 0x08

abbrev pub flag_priority : ℕ
flag_priority = 0x20

abbrev pub flag_ack : ℕ
flag_ack = 0x01

-- `Http2SettingsFrameIdentifier`
abbrev pub header_table_size_id : ℕ
header_table_size_id = 0x1

abbrev pub enable_push_id : ℕ
enable_push_id = 0x2

abbrev pub max_concurrent_streams_id : ℕ
max_concurrent_streams_id = 0x3

abbrev pub initial_window_size_id : ℕ
initial_window_size_id = 0x4

abbrev pub max_frame_size_id : ℕ
max_frame_size_id = 0x5

abbrev pub max_header_list_size_id : ℕ
max_header_list_size_id = 0x6

-- The limits of src/http/v2.c.
abbrev pub max_flow_control_window_size : ℕ
max_flow_control_window_size = 2 ^ 31 - 1

abbrev pub max_max_frame_size : ℕ
max_max_frame_size = 16777215

abbrev pub default_settings_max_frame_size : ℕ
default_settings_max_frame_size = 2 ^ 14

abbrev pub default_header_table_size : ℕ
default_header_table_size = 4096

abbrev pub http2_default_settings : Http2Settings
http2_default_settings = record {
  header_table_size = default_header_table_size;
  enable_push = true;
  max_concurrent_streams = 0xFFFFFFFF;
  initial_window_size = 65535;
  max_frame_size = default_settings_max_frame_size;
  max_header_list_size = 0xFFFFFFFF;
}

-- `DEFAULT_STREAM_PRIORITY_EXT`
abbrev pub default_stream_priority_ext : Http2Identifier → Http2FramePriority
default_stream_priority_ext identifier = record {
  exclusive = false;
  dependency_identifier = identifier;
  weight = 16;
}
