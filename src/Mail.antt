-- ===== src/Mail.antt =====
-- web/src/pages/Message/SendEmail/index.tsx: the page that composes and sends an email.
pub mod Size
pub mod Text
pub mod Address
pub mod Recipients
pub mod PlainText
pub mod Send
pub mod Attach
pub mod Markup
pub mod Large
