-- ===== src/Lib.antt =====
-- Oreka's audio recorder: the parts of orkaudio and orkbasecxx that keep state or transform data on
-- their own.
--
-- A voice-over-IP capture goes through these parts in turn. Packets that were fragmented are put
-- together first (`HandleIpFragment` of orkaudio/audiocaptureplugins/voip/IpFragmentation.cpp, with
-- its buffers in orkbasecxx/SizedBuffer.cpp), a session makes audio chunks of the RTP payloads, the
-- mixer (orkaudio/filters/rtpmixer/RtpMixer.cpp) adds the two sides of a call in one circular buffer
-- and ships what is old enough, and the recorder's messages travel as text (the serializers of
-- orkbasecxx/serializers). The digits that a caller presses steer the recording on demand
-- (DtmfHandling.cpp). Signalling over TCP is put together from its segments (`TrySipTcp` of SipTcp.cpp),
-- which hands each whole message to the parsers, and those take it apart by the helpers of
-- ParsingUtils.cpp. The sessions themselves (orkaudio/audiocaptureplugins/voip/VoIpSession.cpp) stand in
-- two maps, by media address and by call ID, which the messages of SIP and the recorder's commands
-- change. A map that forgets the least recently used entry (orkbasecxx/OrkLruMap.h) stands on its own:
-- no file of the sources includes it.
--
--   Common                  lists, signed integers and Boolean tests over the native numbers;
--                           Common.Outcome tells an exception from undefined behaviour
--   Net.IpHeader            IpHeaderStruct of
--                           orkaudio/audiocaptureplugins/common/PacketHeaderDefs.h: a pointer into
--                           captured bytes is the list of the bytes from there on
--   Net.SizedBuffer         SizedBuffer: `write`, `append`, `reset`, `resize` and `get`
--   Net.Fragments.Forward   ForwardSequentialAlgorithm: `forward_add` is addFragment
--   Net.Fragments.WaitAll   WaitAllAndSortAlgorithm: `wait_all_add` is addFragment, `find_place` its
--                           search, `check_sizes` what follows the insertion
--   Net.Fragments.Table     HandleIpFragment with its static map: `handle_ip_fragment`
--   Net.Fragments.Pieces    what a datagram cut into fragments is, and the packet they make
--   Serializers.Reader      the loop of DeSerialize that both serializers write out
--   Serializers.Url         UrlSerializer.cpp
--   Serializers.SingleLine  SingleLineSerializer.cpp
--   Mixer.Ring              the pointers of the circular buffer, and the two loops on it
--   Mixer.State             the members of RtpMixer, and what it means that they are sound
--   Mixer.Store             StoreRtpPacket
--   Mixer.Shipment          CreateShipment and CheckChunkDetails
--   Mixer.Access            which places of the buffer these two touch: Mixer.Store and Mixer.Shipment
--                           leave a place outside of it alone, where the source would not
--   Mixer.Input             AudioChunkIn, its time stamp correction and statistics, AudioChunkOut
--   Lru                     OrekaLruMap of orkbasecxx/OrkLruMap.h, its operations by their names
--   Lru.Cache               the list of items that it stands for
--   Dtmf                    HandleRtpEvent and ReportDtmfDigit of
--                           orkaudio/audiocaptureplugins/common/DtmfHandling.cpp
--   Net.TcpHeader           TcpHeaderStruct of PacketHeaderDefs.h
--   SipTcp.Search           memFindAfter, memnchr and memFindStr of
--                           orkaudio/audiocaptureplugins/common/SipTcp.cpp, and its `sscanf`
--   SipTcp.Messages         ParseSipMessage and ParseSipStream: `message_len` is one round's search for
--                           a complete message, `stream_loop` the loop
--   SipTcp.Streams          SafeBuffer.cpp, SipTcpStream, and TrySipTcp with its static list
--   Parsing                 the helpers of orkaudio/audiocaptureplugins/voip/ParsingUtils.cpp, by their
--                           names; Parsing.Name has GrabSipName and the searches
--   Net.Ranges              IpRanges, inet_ntopV4 and inet_pton4 of orkbasecxx/Utils.cpp, StringToInt of
--                           Utils.h
--   Voip.OrderedMap         `std::map`
--   Voip.Session            VoIpSession of orkaudio/audiocaptureplugins/voip/VoIpSession.cpp: its members,
--                           its constructor and the functions that read or change it alone
--   Voip.Tables             the members of VoIpSessions, with the memory that its references lead to, and
--                           VoIpSession::Stop
--   Voip.Stops              SetMediaAddress, Stop, TaggingSipTransferCalls and Hoover of VoIpSessions
--   Voip.Lookups            its searches, `find_...` by their names
--   Voip.Commands           StartCapture, PauseCapture and StopCapture, each in three forms
--   Voip.Invites            ReportSipInvite and ReportSipSubscribe
--   Voip.UrlExtraction      UrlExtraction and ReportOnDemandMarkerByIp
--   Voip.Signalling         the other SIP messages; Voip.Signalling.Reached has the steps
--   Voip.Valid              what it means that the tables agree with the sessions
--   Tests                   concrete packets, texts and samples
--
-- Every loop but one is recursion on the list or the number that it runs over, so no fuel is needed.
-- The loop of ParseSipStream, which can go back, is given as many rounds as its buffer has places and
-- one more: between two rounds nothing but the place changes that decides on the next, so a loop that
-- takes more comes to a place twice and never ends. Lengths
-- and offsets of the packets are `size_t` of 64 bits and wrap where the source's sums can; the
-- mixer's time stamps are of 32 bits. The size of the mixer's buffer, 16000 in the source, is an
-- argument; theorems on shipments ask for at most 50000, the most that CheckChunkDetails lets pass
-- as one chunk.
--
-- Parameters: the allocator (`realloc` may fail, and what fresh memory holds is open), the time,
-- the parsers of SIP messages, boost's starts_with, and the string class's Trim and CompareNoCase; for the sessions the settings too, and what `strtol`
-- and `atoi` read. Elsewhere the C library's `isalnum`, `strchr` and `strtol` are written out for
-- the "C" locale.
--
-- Not modelled: the mixer with more than one output channel (HandleMixedOutput and the buffers of the
-- channels), FindClass and the object factory behind the serializers, logging, and the parts that
-- call the operating system or other libraries: sockets, threads, files, codecs, libpcap. The
-- parsers of whole messages are left out too, and of the session tracking the packets of RTP, the
-- messages of Skinny, NOTIFY and INFO. What packets of RTP do to a session is there in Voip.Signalling.Reached
-- only as any change that keeps its call ID and media addresses.
pub mod Common
pub mod Net
pub mod Serializers
pub mod Mixer
pub mod Lru
pub mod Dtmf
pub mod SipTcp
pub mod Parsing
pub mod Voip
mod Tests
