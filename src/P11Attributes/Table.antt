-- ===== src/P11Attributes/Table.antt =====
-- SoftHSMv2/src/lib/P11Attributes.h and P11Attributes.cpp: the classes of attributes, by the objects that have
-- them.
pub mod Objects
pub mod Keys
pub mod Values
pub use Objects.*
pub use Keys.*
pub use Values.*
