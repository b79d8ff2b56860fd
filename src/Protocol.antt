-- ===== src/Protocol.antt =====
-- src/main.go: `Event`, `ParseEvent`, `WriteEvent`, `parseFields` and `validValue`: the lines that a
-- worker writes on its stdout.
pub mod Wire
pub mod Samples
