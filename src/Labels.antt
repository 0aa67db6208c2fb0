-- ===== src/Labels.antt =====
-- web/src/components: the labels and tags that the pages share.
pub mod User
pub mod Storage
pub mod Message
pub mod Laws
