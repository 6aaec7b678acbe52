-- ===== src/Cli.antt =====
-- src/muld_cli_async.cpp and src/muld_cli_polling.cpp: the two command line tools. What they print to a
-- terminal is text, a list of bytes; the terminal's own control sequences are left out.
pub mod Text
pub mod Speed
pub mod Arguments
pub mod Bar
pub mod Active
mod Tests
