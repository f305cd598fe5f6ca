-- ===== src/Userns.antt =====
-- src/cext/os/userns.c: user namespaces with given id maps.
pub mod Maps
pub mod MapText
pub mod MapsLaws
pub mod Clone
pub mod CloneLaws
mod Examples
