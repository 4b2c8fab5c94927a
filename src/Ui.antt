-- ===== src/Ui.antt =====
-- internal/ui: the terminal user interface of rooms and of the entry point.
pub mod LineEdit
pub mod Input
pub mod Common
pub mod Form
pub mod Password
pub mod LogView
