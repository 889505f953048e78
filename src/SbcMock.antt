-- ===== src/SbcMock.antt =====
-- The processes of the S-SBC mock (src/s_sbc_mock): the application, which places calls on its trunk
-- side, and the return side, which answers the calls that come back.
pub mod Application
pub mod ReturnUas
