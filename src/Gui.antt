-- ===== src/Gui.antt =====
-- The desktop client (gui/).
pub mod View
pub mod Connection
pub mod Webview
pub mod Settings
pub mod Theme
pub mod Apps
