-- ===== src/Select/Clouds.antt =====
-- The selection of server types by the packages of the clouds. Minimums are nonnegative.
pub mod Hetzner
pub mod Digitalocean
pub mod Vultr
pub mod Linode
pub mod Scaleway
