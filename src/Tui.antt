-- ===== src/Tui.antt =====
-- backend/pkg/tui: the parts of the terminal prompt that keep state.
pub mod History
pub mod CtrlC
