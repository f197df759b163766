-- ===== src/Picker.antt =====
-- nodejs/services/tui_picker.js: the choice of a host at the terminal.
pub mod Keys
pub mod Choice
pub mod Rows
mod Examples
