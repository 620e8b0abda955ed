-- ===== src/Types.antt =====
-- p9/p9.go: the types that messages are made of.
pub mod Qid
pub mod AttrMask
pub mod SetAttrMask
pub mod Attr
pub mod Dirent
pub mod Layout
pub mod Inclusion
pub mod MsgType
pub mod Rules
