-- ===== src/Go/Io.antt =====
-- `io.EOF` and `io.ErrUnexpectedEOF`.
pub data IoError : Type 0 where
  eof unexpected_eof : IoError
