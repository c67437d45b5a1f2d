-- ===== src/Tests.antt =====
-- Runs of the models on concrete inputs, and the theorems at inputs that meet their hypotheses.
mod FakeIps
mod Nets
mod Geos
mod Rules
mod Routers
mod Resolvers
mod Idles
mod Datagrams
mod Tunnels
mod Hellos
mod Muxes
mod Nodes
mod Tokens
mod Flights
