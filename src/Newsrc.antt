-- ===== src/Newsrc.antt =====
-- rcln.cpp: the article numbers of a .newsrc line, as the text from `rcline + numoffset`.
pub mod Numbers
pub mod Edit
pub mod Bounds
pub mod Agree
pub mod Groups
pub mod Handlers
pub mod Counting
mod Examples
