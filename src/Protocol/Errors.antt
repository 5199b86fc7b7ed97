-- ===== src/Protocol/Errors.antt =====
-- The `ProtocolError`s of protocol.py, one constructor for each message.
pub data ProtocolError : Type 0 where
  invalid_base64 unsupported_version invalid_session_id invalid_observer_id : ProtocolError
  bad_secret_length expired expiry_too_far : ProtocolError
  not_an_invitation missing_or_repeated invalid_field : ProtocolError
